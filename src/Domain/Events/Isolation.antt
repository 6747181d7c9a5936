-- ===== src/Domain/Events/Isolation.antt =====
-- A failing subscriber changes nothing for the others: every handler of the event's type runs, in
-- the order of subscription.
use wallet_ledger_assesment.Base.{
  ℕ, ◌≡◌, refl, true, false, String, List, [], ◌∷◌, ◌++◌, arith, Bool-cases, inl, inr,
  if◌then◌else◌,
}
use wallet_ledger_assesment.Base.Text.{str_eq, eq_iff}
use wallet_ledger_assesment.Domain.Events.{
  DomainEvent, Handler, EventBus, subscribers, subscribe, log_failure, run_handlers, publish,
}

apart : (t u k : String) → str_eq u t ≡ false → str_eq u k ≡ true → str_eq t k ≡ false
apart t u k h q = ground (arith, eq_iff u t, eq_iff u k, eq_iff t k)

module _ {ℓ} {S : Type ℓ} where
  subscribers-subscribe :
      (t k : String) (h : Handler S) (bus : EventBus S)
      → subscribers k (subscribe t h bus)
        ≡ (if str_eq t k then subscribers k bus ++ (h ∷ []) else subscribers k bus)
  unfolding subscribers subscribe
  subscribers-subscribe t k h [] = refl
  subscribers-subscribe t k h ((u, hs) ∷ bus) = elim (Bool-cases (str_eq u t)) [
    | inl same ↦
        rw same (
          rw ((eq_iff u t).0 same) (elim (Bool-cases (str_eq t k)) [ inl q ↦ rw q | inr q ↦ rw q ]))
    | inr other ↦ rw other (
        rw (subscribers-subscribe t k h bus)
          (elim (Bool-cases (str_eq u k)) [ inl q ↦ rw (apart t u k other q, q) | inr q ↦ rw q ]))
  ]

  run_handlers-append :
      (hs ks : List (Handler S)) (e : DomainEvent) (s : S) (n : ℕ)
      → run_handlers (hs ++ ks) e s n
        ≡ (let (s', n') = run_handlers hs e s n in run_handlers ks e s' n')
  unfolding run_handlers
  run_handlers-append [] ks e s n = refl
  run_handlers-append (h ∷ hs) ks e s n = run_handlers-append hs ks e _ _

  -- Publishing after a handler has subscribed to the event's type runs what ran before and then that
  -- handler, whether the earlier ones raised or not; to another type it changes nothing.
  pub publish-subscribe :
      (t : String) (h : Handler S) (bus : EventBus S) (e : DomainEvent) (s : S)
      → publish e (subscribe t h bus) s ≡ (
          if str_eq t e.event_type
          then (let (s', n) = publish e bus s in let (r, s'') = h e s' in (s'', log_failure r n))
          else publish e bus s)
  unfolding publish
  publish-subscribe t h bus e s = elim (Bool-cases (str_eq t e.event_type)) [
    | inl same ↦
        rw (subscribers-subscribe t e.event_type h bus, same)
          (run_handlers-append (subscribers e.event_type bus) (h ∷ []) e s 0)
    | inr other ↦ rw (subscribers-subscribe t e.event_type h bus, other)
  ]
