-- ===== src/Billing/Racing.antt =====
-- A refund event that arrives before its approval is recorded (backend/app/billing/service.py and
-- store.py).
use mathlib.Core.Path.{subst}
use zouseeking.Base.{
  ℕ, ◌≡◌, refl, ◌∙◌, true, false, ◌&&◌, Option, none, some, List, [], ◌∷◌, String, arith, string_eq,
  option_eq, option_beq_iff, nat_beq, nat_beq_iff, ap, is_some, ℤ, pos, negsuc, str_len, inl, inr,
  Bool-cases, Option-cases,
}
use zouseeking.Base.Rows.{image, first_where-insert_row}
use zouseeking.Base.Table.{
  find, first_where, least_where, insert_row, find-update_where, find-insert_row,
}
use zouseeking.Base.Txn.{
  done, raised, Ensures, ends, raises, ended, weaken, after_done, after_check, after_call, and_then,
  raise_if, or_raise,
}
use zouseeking.Billing.Webhook.{RetryPolicy}
use zouseeking.Billing.Orders.{
  Order, Refund, RefundStatus, Books, violates, order_key, refund_key, is_succeeded, is_charged,
  is_subscription_product, recomputed, intent_of, get_refund_request, recompute_order_refund_status,
  with_refund_id, mark_refund_succeeded,
}
use zouseeking.Billing.Refunds.{
  Provider, refund_id, lookup_as, ask_provider, approve_refund, record_approval, RefundObject,
  int_of, refund_status, provided, has_intent, paid_later, is_refunded, or_usd, amount_column,
  sync_refund, revoke_for, after_success, settle_order, on_refund_event,
}

-- The payment intent of an order, if there is the order.
abbrev pub intent_at : ℕ → List Order → Option String
intent_at i orders = image (λ o. intent_of (some o)) (find order_key i orders)

-- Orders keep their payment intents.
abbrev SameIntents : Books → Books → Type 0
SameIntents s t = (i : ℕ) → intent_at i t.orders ≡ intent_at i s.orders

record Keeps (s : Books) (t : Books) : Type 0 where
  intents : SameIntents s t
  refunds : t.refunds ≡ s.refunds

recompute-Keeps :
    (order : ℕ) (s : Books) → Ensures (λ _ t. Keeps s t) (recompute_order_refund_status order s)
unfolding recompute_order_refund_status recomputed
recompute-Keeps order s = ends (record {
  intents = λ i. ground (
    arith,
    find-update_where order_key (λ o. nat_beq o.id order && is_charged o.status)
        (recomputed s.refunds) (λ o. refl) i s.orders,
  );
  refunds = refl;
})

revoke-Keeps : (o : Option Order) (s : Books) → Ensures (λ _ t. Keeps s t) (revoke_for o s)
unfolding revoke_for
revoke-Keeps none s = ends (record { intents = λ i. refl; refunds = refl })
revoke-Keeps (some o) s =
    elim (Bool-cases (is_refunded o.status && is_subscription_product o.product_code)) [
      | inl revokes ↦ rw revokes (ends (record { intents = λ i. refl; refunds = refl }))
      | inr keeps ↦ rw keeps (ends (record { intents = λ i. refl; refunds = refl }))
    ]

-- The event adds the refund `id` with its provider's identifier.
pub record Adds (o : RefundObject) (id : ℕ) (s t : Books) : Type 0 where
  pub row : Refund
  pub numbered : row.id ≡ id
  pub named : row.provider_refund_id ≡ some o.id
  pub refunds : t.refunds ≡ insert_row row s.refunds
  pub intents : SameIntents s t

amount-same : (amount : ℤ) (s : Books) → Ensures (λ _ t. t ≡ s) (amount_column amount s)
unfolding amount_column
amount-same (pos n) s = after_check _ _ (λ _. ends refl)
amount-same (negsuc n) s = raises

module _ (o : RefundObject) (id now : ℕ) (s : Books) (x : Order)
    (unknown : first_where (provided o.id) s.refunds ≡ none)
    (named : nat_beq (str_len o.payment_intent) 0 ≡ false)
    (known : least_where paid_later (has_intent o.payment_intent) s.orders ≡ some x) where
  sync-Adds :
      (amount : ℤ) (status : RefundStatus)
      → Ensures (λ _ t. Adds o id s t) (sync_refund o amount status id now s)
  unfolding sync_refund
  sync-Adds amount status = after_done _ (
      rw unknown (
        after_done _ (
          rw named (
            rw known (
              after_call (amount-same amount s) (λ m t same. rw same (
                after_check _ _ (λ _. after_done _ (
                  ends (record {
                    row = record {
                      id = id;
                      order_id = x.id;
                      amount_minor = m;
                      currency = or_usd o.currency;
                      status = status;
                      provider_refund_id = some o.id;
                      created_at = now;
                    };
                    numbered = refl;
                    named = refl;
                    refunds = refl;
                    intents = λ i. refl;
                  }))))))))))

  success-Keeps : (order : ℕ) (t : Books) → Ensures (λ _ u. Keeps t u) (after_success order t)
  unfolding after_success
  success-Keeps order t = after_call (recompute-Keeps order t) (λ _ u k. after_done _ (
      weaken (revoke-Keeps (find order_key order u.orders) u) (λ _ v l. record {
        intents = λ i. l.intents i ∙ k.intents i;
        refunds = l.refunds ∙ k.refunds;
      })))

  settle-Keeps :
      (status : RefundStatus) (order : Option ℕ) (t : Books)
      → Ensures (λ _ u. Keeps t u) (settle_order status order t)
  settle-Keeps status none t = ends (record { intents = λ i. refl; refunds = refl })
  settle-Keeps status (some order) t = elim (Bool-cases (is_succeeded status)) [
    | inl succeeds ↦ rw succeeds (success-Keeps order t)
    | inr other ↦ rw other (ends (record { intents = λ i. refl; refunds = refl }))
  ]

  event-Adds :
      (n : ℤ)
      → nat_beq (str_len o.id) 0 ≡ false
      → int_of o.amount ≡ some n
      → Ensures (λ _ t. Adds o id s t) (on_refund_event o id now s)
  unfolding on_refund_event
  event-Adds n full amount = rw full (
      rw amount (
        after_call (sync-Adds n (refund_status o.status)) (λ order t a.
          weaken (settle-Keeps (refund_status o.status) order t) (λ _ u k. record {
            row = a.row;
            numbered = a.numbered;
            named = a.named;
            refunds = k.refunds ∙ a.refunds;
            intents = λ i. k.intents i ∙ a.intents i;
          }))))

-- An approval whose provider answers with an identifier that another refund has.
taken-refused :
    (p : RetryPolicy) (gateway : String → Provider) (actor id now : ℕ) (s : Books) (r x : Refund)
    (y : Order) (provider_id : String)
    → find refund_key id s.refunds ≡ some r
    → find order_key r.order_id s.orders ≡ some y
    → is_succeeded r.status ≡ false
    → gateway (intent_of (some y)) ≡ refund_id provider_id
    → first_where (with_refund_id provider_id id) s.refunds ≡ some x
    → approve_refund p gateway actor true id now s ≡ record {
      answer = raised (violates "refunds_provider_refund_id_unique");
      books = s;
      asked = intent_of (some y) ∷ [];
    }
unfolding approve_refund lookup_as get_refund_request ask_provider record_approval
    mark_refund_succeeded and_then or_raise raise_if
taken-refused p gateway actor id now s r x y provider_id there ordered open_ answered taken =
    rw there (rw ordered (rw open_ (rw (answered, ask_provider) (rw there (rw taken refl)))))

-- The row that the event adds is another refund with the provider's identifier.
Adds-taken :
    (o : RefundObject) (id wanted : ℕ) (s t : Books) (r : Refund)
    → Adds o id s t
    → find refund_key id s.refunds ≡ none
    → find refund_key wanted s.refunds ≡ some r
    → first_where (provided o.id) s.refunds ≡ none
    → (find refund_key wanted t.refunds ≡ some r)
      × (is_some (first_where (with_refund_id o.id wanted) t.refunds) ≡ true)
Adds-taken o id wanted s t r a fresh there unknown =
    let unused : find refund_key a.row.id s.refunds ≡ none = rw a.numbered fresh in
    (
      ground (
        arith,
        a.refunds,
        a.numbered,
        fresh,
        there,
        find-insert_row refund_key wanted a.row s.refunds unused,
      ),
      ground (
        arith,
        a.refunds,
        a.numbered,
        a.named,
        fresh,
        there,
        nat_beq_iff id wanted,
        option_beq_iff ⦃e = string_eq⦄ a.row.provider_refund_id (some o.id),
        first_where-insert_row (with_refund_id o.id wanted) a.row s.refunds,
      ),
    )

-- If the provider's event of a refund is applied before the approval that asked for it is recorded,
-- the approval raises the uniqueness of the provider's identifier and changes nothing: its request
-- stays open, so that approving it again asks the provider again.
pub event-blocks_approval :
    (o : RefundObject) (id now : ℕ) (s t : Books) (x : Order) (n : ℤ) (p : RetryPolicy)
    (gateway : String → Provider) (actor wanted later_on : ℕ) (r : Refund) (intent : String)
    → on_refund_event o id now s ≡ done (tt, t)
    → nat_beq (str_len o.id) 0 ≡ false
    → int_of o.amount ≡ some n
    → nat_beq (str_len o.payment_intent) 0 ≡ false
    → least_where paid_later (has_intent o.payment_intent) s.orders ≡ some x
    → first_where (provided o.id) s.refunds ≡ none
    → find refund_key id s.refunds ≡ none
    → find refund_key wanted s.refunds ≡ some r
    → is_succeeded r.status ≡ false
    → intent_at r.order_id s.orders ≡ some intent
    → gateway intent ≡ refund_id o.id
    → approve_refund p gateway actor true wanted later_on t ≡ record {
      answer = raised (violates "refunds_provider_refund_id_unique");
      books = t;
      asked = intent ∷ [];
    }
event-blocks_approval o id now s t x n p gateway actor wanted later_on r intent applied full amount
      named known unknown fresh there open_ ordered answered =
    let a = ended (
      subst (Ensures (λ _ u. Adds o id s u)) applied
        (event-Adds o id now s x unknown named known n full amount)) in
    let (kept, taken) = Adds-taken o id wanted s t r a fresh there unknown in
    let asked_for = a.intents r.order_id ∙ ordered in
    elim (Option-cases (first_where (with_refund_id o.id wanted) t.refunds)) [
      | inl untaken ↦ absurd (ground (arith, untaken, taken))
      | inr (y, found_) ↦ elim (Option-cases (find order_key r.order_id t.orders)) [
        | inl lost ↦ absurd (ground (arith, lost, asked_for))
        | inr (z, there_is) ↦
            let same : intent_of (some z) ≡ intent = ground (arith, there_is, asked_for) in
            subst
              (λ i. approve_refund p gateway actor true wanted later_on t ≡ record {
                answer = raised (violates "refunds_provider_refund_id_unique");
                books = t;
                asked = i ∷ [];
              })
              same
              (taken-refused p gateway actor wanted later_on t r y z o.id kept there_is open_
                (ap gateway same ∙ answered) found_)
      ]
    ]
