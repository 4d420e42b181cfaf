-- ===== src/Hub/Subscriptions.antt =====
-- Subscriptions and their end keep the invariant of the hub.
use prappser_spaces.Base.{
  ℕ, String, ◌≡◌, sym, ◌⊎◌, inl, inr, true, false, some, List, [], ◌∷◌, ◌++◌, ◌==◌, any, arith,
  eq_iff, eqb, In, Bool-cases,
}
use mathlib.Core.Path.{subst}
use prappser_spaces.Application.{User}
use prappser_spaces.Hub.{
  Hub, set, set_at, drop_app, remove_first, remove_from_app_subscribers, subscribe, unsubscribe,
}
use prappser_spaces.Hub.Lists.{
  Once, In-of_remove_first, Once-remove_first, remove_first-gone, In-append_one, Once-append_one,
  any-In, set_at-elim, set_at-cases, set-elim, kept_app,
}
use prappser_spaces.Hub.Safety.{IsSafe}

module _ (who : ℕ → User) where
  pub subscribe-IsSafe :
      (c : ℕ) (app_id : String) (h : Hub)
      → h.closed c ≡ false
      → IsSafe who h
      → IsSafe who (subscribe who (some true) c app_id h)
  unfolding subscribe
  subscribe-IsSafe c app_id h unclosed s = elim (Bool-cases (any (eqb c) (h.by_app app_id))) [
    | inl t ↦ rw t (record {
      gone = s.gone;
      users = s.users;
      once_user = s.once_user;
      once_app = s.once_app;
      apps = λ a d i. ((s.apps a d i).0, listed a d (s.apps a d i).1);
    })
    | inr n ↦ rw n (record {
      gone = s.gone;
      users = s.users;
      once_user = s.once_user;
      apps = λ a d i. entry a d i;
      once_app = λ a.
          set_at-elim Once app_id a (h.by_app app_id ++ c ∷ []) h.by_app
            (λ _.
              Once-append_one c (h.by_app app_id) (s.once_app app_id)
                (any-In c (h.by_app app_id) n))
            (s.once_app a);
    })
  ]
    where
      subs : ℕ → List String
      subs = set c (app_id ∷ drop_app app_id (h.subscriptions c)) h.subscriptions

      mine :
          (a : String)
          → In a (h.subscriptions c)
          → ((app_id == a) ≡ true) ⊎ ((app_id == a) ≡ false)
          → In a (app_id ∷ drop_app app_id (h.subscriptions c))
      mine a j (inl t) = inl ((eq_iff app_id a).0 t)
      mine a j (inr f) =
          inr (
            kept_app app_id a (h.subscriptions c) j (λ e. ground (arith, f, (eq_iff app_id a).1 e)))

      listed : (a : String) (d : ℕ) → In a (h.subscriptions d) → In a (subs d)
      listed a d j =
          set-elim (λ l. In a l) c d (app_id ∷ drop_app app_id (h.subscriptions c)) h.subscriptions
            (λ e.
              mine a (subst (λ z. In a (h.subscriptions z)) (sym e) j) (Bool-cases (app_id == a)))
            (λ _. j)

      first : (a : String) (d : ℕ) → app_id ≡ a → c ≡ d → In a (subs d)
      first a d e q =
          set-elim (λ l. In a l) c d (app_id ∷ drop_app app_id (h.subscriptions c)) h.subscriptions
            (λ _. inl e) (λ n. absurd (ground (arith, n, q)))

      entry :
          (a : String) (d : ℕ)
          → In d (set_at app_id (h.by_app app_id ++ c ∷ []) h.by_app a)
          → (h.closed d ≡ false) × In a (subs d)
      entry a d =
          set_at-elim (λ l. In d l → (h.closed d ≡ false) × In a (subs d)) app_id a
            (h.by_app app_id ++ c ∷ []) h.by_app
            (λ e j. elim (In-append_one c d (h.by_app app_id) j) [
              | inl i ↦
                  let k = s.apps a d (subst (λ z. In d (h.by_app z)) e i) in (k.0, listed a d k.1)
              | inr q ↦ (subst (λ z. h.closed z ≡ false) q unclosed, first a d e q)
            ])
            (λ j. ((s.apps a d j).0, listed a d (s.apps a d j).1))

  pub unsubscribe-IsSafe :
      (c : ℕ) (app_id : String) (h : Hub) → IsSafe who h → IsSafe who (unsubscribe who c app_id h)
  unfolding unsubscribe remove_from_app_subscribers
  unsubscribe-IsSafe c app_id h s = record {
    gone = s.gone;
    users = s.users;
    once_user = s.once_user;
    apps = λ a d i. entry a d i;
    once_app = λ a.
        set_at-elim Once app_id a (remove_first c (h.by_app app_id)) h.by_app
          (λ _. Once-remove_first c (h.by_app app_id) (s.once_app app_id)) (s.once_app a);
  }
    where
      entry :
          (a : String) (d : ℕ)
          → In d (set_at app_id (remove_first c (h.by_app app_id)) h.by_app a)
          → (h.closed d ≡ false)
            × In a (set c (drop_app app_id (h.subscriptions c)) h.subscriptions d)
      entry a d =
          set_at-cases
            (λ l.
              In d l
              → (h.closed d ≡ false)
                × In a (set c (drop_app app_id (h.subscriptions c)) h.subscriptions d))
            app_id a (remove_first c (h.by_app app_id)) h.by_app
            (λ e j.
              let k =
                s.apps a d
                  (subst (λ z. In d (h.by_app z)) e (In-of_remove_first c d (h.by_app app_id) j)) in
              (
                k.0,
                set-elim (λ l. In a l) c d (drop_app app_id (h.subscriptions c)) h.subscriptions
                    (λ q. absurd (
                      remove_first-gone c (h.by_app app_id) (s.once_app app_id)
                        (subst (λ z. In z (remove_first c (h.by_app app_id))) (sym q) j)))
                    (λ _. k.1),
              ))
            (λ n j.
              let k = s.apps a d j in
              (
                k.0,
                set-elim (λ l. In a l) c d (drop_app app_id (h.subscriptions c)) h.subscriptions
                    (λ q.
                      kept_app app_id a (h.subscriptions c)
                        (subst (λ z. In a (h.subscriptions z)) (sym q) k.1) n)
                    (λ _. k.1),
              ))
