-- ===== src/Billing/Again.antt =====
-- A refund request that is made again (backend/app/billing/service.py, `request_refund`).
use zouseeking.Base.{
  ℕ, ◌≡◌, refl, ◌∙◌, Bool, true, false, not, none, some, List, [], ◌∷◌, String, arith, nat_beq_iff,
  inl, inr, Option-cases, Bool-cases,
}
use zouseeking.Base.Table.{find, least_where, insert_row}
use zouseeking.Base.Txn.{
  raise_if, or_raise, and_then, done, Ensures, ends, ended, after_done, after_check, after_found,
  after_call,
}
use mathlib.Core.Path.{sym, subst}
use zouseeking.Billing.Orders.{
  owned_by, order_key, intent_of, Order, request_of, requested, Refund, Books, RefundCandidate,
  RefundRequest, refunds_order, new_refund, newer_refund, get_refund_candidate,
  create_refund_request,
}
use zouseeking.Billing.Refunds.{refundable, request_refund}

module _ {ℓ} {A : Type ℓ} where
  least_where_first :
      (before : A → A → Bool) (p : A → Bool) (r : A) (rows : List A)
      → least_where before p rows ≡ none
      → p r ≡ true
      → least_where before p (insert_row r rows) ≡ some r
  unfolding least_where insert_row
  least_where_first before p r [] none_yet meets = ground (arith, meets)
  least_where_first before p r (x ∷ rows) none_yet meets =
      elim (Option-cases (least_where before p rows)) [
        | inl empty ↦ elim (Bool-cases (p x)) [
          | inl hit ↦ absurd (ground (arith, rw (empty, hit) at none_yet))
          | inr missed ↦ rw (least_where_first before p r rows empty meets) (rw missed refl)
        ]
        | inr (y, there) ↦ elim (Bool-cases (p x)) [
          | inl hit ↦ absurd (ground (arith, there, none_yet))
          | inr missed ↦ absurd (ground (arith, there, none_yet))
        ]
      ]

-- The newest refund of the candidate's order is the one that the request answers.
record Open (user : ℕ) (c : RefundCandidate) (r : RefundRequest) (s t : Books) : Type 0 where
  row : Refund
  newest : least_where newer_refund (refunds_order c.request_id) t.refunds ≡ some row
  numbered : r.request_id ≡ row.id
  orders : t.orders ≡ s.orders
  subscriptions : t.subscriptions ≡ s.subscriptions
  order : Order
  there : find order_key c.request_id t.orders ≡ some order
  owned : not (owned_by user order) ≡ false

create-Open :
    (user : ℕ) (c : RefundCandidate) (now id : ℕ) (s : Books)
    → Ensures (λ r t. Open user c r s t) (create_refund_request user c now id s)
unfolding create_refund_request
create-Open user c now id s = after_done _ (
    after_found _ _ (λ o there. after_check _ _ (λ owned.
      after_done _
        (elim (Option-cases (least_where newer_refund (refunds_order c.request_id) s.refunds)) [
          | inl unasked ↦ rw unasked (
              after_done _ (
                ends (record {
                  row = new_refund id c now;
                  newest =
                      least_where_first newer_refund (refunds_order c.request_id)
                        (new_refund id c now) s.refunds unasked
                        ((nat_beq_iff c.request_id c.request_id).1 refl);
                  numbered = refl;
                  orders = refl;
                  subscriptions = refl;
                  order = o;
                  there = there;
                  owned = owned;
                })))
          | inr (row, newest) ↦ rw newest (
              ends (record {
                row = row;
                newest = newest;
                numbered = refl;
                orders = refl;
                subscriptions = refl;
                order = o;
                there = there;
                owned = owned;
              }))
        ]))))

-- With an open request the store answers it and adds nothing.
create_again :
    (user : ℕ) (c : RefundCandidate) (now id : ℕ) (t : Books) (row : Refund) (order : Order)
    → least_where newer_refund (refunds_order c.request_id) t.refunds ≡ some row
    → find order_key c.request_id t.orders ≡ some order
    → not (owned_by user order) ≡ false
    → create_refund_request user c now id t ≡ done (request_of row (intent_of (some order)), t)
unfolding create_refund_request and_then or_raise raise_if
create_again user c now id t row order newest there owned = rw there (rw owned (rw newest refl))

request_again :
    (user : ℕ) (intent : String) (c : RefundCandidate) (now id : ℕ) (t : Books) (q : RefundRequest)
    → get_refund_candidate user intent t ≡ some c
    → refundable c now ≡ true
    → create_refund_request user c now id t ≡ done (q, t)
    → request_refund user intent now id t
      ≡ done (q, record t { audits = insert_row (requested user intent) t.audits })
unfolding request_refund and_then or_raise raise_if
request_again user intent c now id t q there eligible created =
    rw there (rw eligible (rw created refl))

record Requested (user : ℕ) (intent : String) (r : RefundRequest) (s t : Books) : Type 0 where
  candidate : RefundCandidate
  found : get_refund_candidate user intent t ≡ some candidate
  open_ : Open user candidate r s t

same_candidate :
    (user : ℕ) (intent : String) (s t : Books)
    → t.orders ≡ s.orders
    → t.subscriptions ≡ s.subscriptions
    → get_refund_candidate user intent t ≡ get_refund_candidate user intent s
unfolding get_refund_candidate
same_candidate user intent s t orders subscriptions = rw orders (rw subscriptions refl)

request-Requested :
    (user : ℕ) (intent : String) (now id : ℕ) (s : Books)
    → Ensures (λ r t. Requested user intent r s t) (request_refund user intent now id s)
unfolding request_refund get_refund_candidate
request-Requested user intent now id s = after_done _ (
    after_found _ _ (λ c there. after_check _ _ (λ eligible.
      after_call (create-Open user c now id s) (λ r t o. after_done _ (
        ends (record {
          candidate = c;
          found = same_candidate user intent s t o.orders o.subscriptions ∙ there;
          open_ = record {
            row = o.row;
            newest = o.newest;
            numbered = o.numbered;
            orders = o.orders;
            subscriptions = o.subscriptions;
            order = o.order;
            there = o.there;
            owned = o.owned;
          };
        }))))))

-- The call answers the request `r` and only adds its audit row.
pub record Repeated (user : ℕ) (intent : String) (later fresh : ℕ) (r : RefundRequest) (t : Books)
    : Type 0 where
  pub answer : RefundRequest
  pub same : answer.request_id ≡ r.request_id
  pub call :
      request_refund user intent later fresh t
      ≡ done (answer, record t { audits = insert_row (requested user intent) t.audits })

-- A user who asks for a refund of the same payment again, with nothing in between and while the payment
-- is still refundable, is answered with the request of the first time; no refund is added.
pub request_refund_again :
    (user : ℕ) (intent : String) (now id later fresh : ℕ) (s t : Books) (r : RefundRequest)
    (c : RefundCandidate)
    → request_refund user intent now id s ≡ done (r, t)
    → get_refund_candidate user intent t ≡ some c
    → refundable c later ≡ true
    → Repeated user intent later fresh r t
request_refund_again user intent now id later fresh s t r c asked there eligible =
    let q = ended (
      subst (Ensures (λ x u. Requested user intent x s u)) asked
        (request-Requested user intent now id s)) in
    let o = q.open_ in
    let same : q.candidate ≡ c = ground (arith, q.found, there) in
    let again =
      create_again user q.candidate later fresh t o.row o.order o.newest o.there o.owned in
    record {
      answer = request_of o.row (intent_of (some o.order));
      same = sym o.numbered;
      call = request_again user intent c later fresh t _ there eligible (
          subst
            (λ x.
              create_refund_request user x later fresh t
              ≡ done (request_of o.row (intent_of (some o.order)), t))
            same again);
    }
