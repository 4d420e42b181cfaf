-- ===== src/Hub/Clients.antt =====
-- Registration and its end keep the invariant of the hub.
use prappser_spaces.Base.{
  ℕ, String, ◌≡◌, ◌≢◌, refl, sym, ◌∙◌, ◌⊎◌, inl, inr, true, false, ap, [], ◌∷◌, ◌++◌, arith, eqb,
  In, Bool-cases,
}
use mathlib.Core.Path.{subst}
use prappser_spaces.Application.{User}
use prappser_spaces.Hub.{
  Hub, set, set_at, remove_first, remove_from_apps, register_client, unregister_client,
}
use prappser_spaces.Hub.Lists.{
  Once, In-of_remove_first, Once-remove_first, remove_first-gone, In-append_one, Once-append_one,
  set_at-elim, set_at-cases, In-of_remove_from_apps, Once-remove_from_apps, remove_from_apps-gone,
  set-elim,
}
use prappser_spaces.Hub.Safety.{IsSafe}

module _ (who : ℕ → User) where
  pub register-IsSafe :
      (c : ℕ) (h : Hub)
      → h.clients c ≡ false
      → h.closed c ≡ false
      → IsSafe who h
      → IsSafe who (register_client who c h)
  unfolding register_client
  register-IsSafe c h new unclosed s =
      let key = (who c).public_key in
      record {
        gone = λ d z.
            set-elim (λ b. b ≡ false) c d true h.clients
              (λ e. ground (arith, unclosed, z, ap h.closed e)) (λ _. s.gone d z);
        users = λ k d i. (
          set-elim (λ b. b ≡ true) c d true h.clients (λ _. refl) (λ n. (user k d n i).0),
          key_of k d i,
        );
        apps = s.apps;
        once_user = λ k.
            set_at-elim Once key k (h.by_user key ++ c ∷ []) h.by_user
              (λ _.
                Once-append_one c (h.by_user key) (s.once_user key)
                  (λ i. ground (arith, new, (s.users key c i).0)))
              (s.once_user k);
        once_app = s.once_app;
      }
    where
      old_or_new :
          (k : String) (d : ℕ)
          → In d (set_at (who c).public_key (h.by_user (who c).public_key ++ c ∷ []) h.by_user k)
          → In d (h.by_user k) ⊎ ((c ≡ d) × (k ≡ (who c).public_key))
      old_or_new k d =
          set_at-elim (λ l. In d l → In d (h.by_user k) ⊎ ((c ≡ d) × (k ≡ (who c).public_key)))
            (who c).public_key k (h.by_user (who c).public_key ++ c ∷ []) h.by_user
            (λ e j. elim (In-append_one c d (h.by_user (who c).public_key) j) [
              | inl i ↦ inl (subst (λ z. In d (h.by_user z)) e i)
              | inr q ↦ inr (q, sym e)
            ])
            (λ j. inl j)

      user :
          (k : String) (d : ℕ)
          → eqb c d ≡ false
          → In d (set_at (who c).public_key (h.by_user (who c).public_key ++ c ∷ []) h.by_user k)
          → (h.clients d ≡ true) × (k ≡ (who d).public_key)
      user k d n i = elim (old_or_new k d i) [
        | inl j ↦ s.users k d j
        | inr (q, e) ↦ absurd (ground (arith, n, q))
      ]

      key_of :
          (k : String) (d : ℕ)
          → In d (set_at (who c).public_key (h.by_user (who c).public_key ++ c ∷ []) h.by_user k)
          → k ≡ (who d).public_key
      key_of k d i = elim (old_or_new k d i) [
        | inl j ↦ (s.users k d j).1
        | inr (q, e) ↦ e ∙ ap (λ z. (who z).public_key) q
      ]

  left-In :
      (c : ℕ) (h : Hub)
      → IsSafe who h
      → (k : String) (d : ℕ)
      → In d (set_at (who c).public_key (remove_first c (h.by_user (who c).public_key)) h.by_user k)
      → In d (h.by_user k) × (c ≢ d)
  left-In c h s k d =
      let key = (who c).public_key in
      set_at-cases (λ l. In d l → In d (h.by_user k) × (c ≢ d)) key k
        (remove_first c (h.by_user key)) h.by_user
        (λ e j. (
          subst (λ z. In d (h.by_user z)) e (In-of_remove_first c d (h.by_user key) j),
          λ q.
              remove_first-gone c (h.by_user key) (s.once_user key)
                (subst (λ z. In z (remove_first c (h.by_user key))) (sym q) j),
        ))
        (λ n j. (j, λ q. n (sym ((s.users k d j).1 ∙ ap (λ z. (who z).public_key) (sym q)))))

  pub unregister-IsSafe : (c : ℕ) (h : Hub) → IsSafe who h → IsSafe who (unregister_client who c h)
  unfolding unregister_client
  unregister-IsSafe c h s =
      let key = (who c).public_key in
      elim (Bool-cases (h.clients c)) [
        | inl t ↦ rw t (record {
          gone = λ d z.
              set-elim (λ b. b ≡ false) c d false h.clients (λ _. refl)
                (λ n. s.gone d (still c d n h z));
          users = λ k d i.
              let (j, n) = left-In c h s k d i in
              (
                set-elim (λ b. b ≡ true) c d false h.clients (λ e. absurd (n e))
                    (λ _. (s.users k d j).0),
                (s.users k d j).1,
              );
          apps = λ a d i.
              let j = In-of_remove_from_apps c d (h.subscriptions c) h.by_app a i in
              (
                set-elim (λ b. b ≡ false) c d true h.closed
                    (λ e. absurd (
                      remove_from_apps-gone c (h.subscriptions c) h.by_app a s.once_app
                        (subst (λ z. In a (h.subscriptions z)) (sym e) (s.apps a d j).1)
                        (subst (λ z. In z (remove_from_apps c (h.subscriptions c) h.by_app a))
                          (sym e) i)))
                    (λ _. (s.apps a d j).0),
                (s.apps a d j).1,
              );
          once_user = λ k.
              set_at-elim Once key k (remove_first c (h.by_user key)) h.by_user
                (λ _. Once-remove_first c (h.by_user key) (s.once_user key)) (s.once_user k);
          once_app = Once-remove_from_apps c (h.subscriptions c) h.by_app s.once_app;
        })
        | inr f ↦ rw f s
      ]
    where
      still :
          (c d : ℕ) → eqb c d ≡ false → (h : Hub) → set c true h.closed d ≡ true → h.closed d ≡ true
      still c d n h z = ground (arith, n, z)
