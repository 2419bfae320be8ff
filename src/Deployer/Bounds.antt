-- ===== src/Deployer/Bounds.antt =====
-- The status of a listener: its counter of routes, and its conditions.
use kubvernor.Prelude.{
  ℕ, ◌<◌, ◌^◌, String, str_eq, eq_iff, not, Option, List, [], ◌∷◌, ◌++◌, filter_by, All, ◌≡◌, ◌≢◌,
  refl, ◌∙◌, arith,
}
use kubvernor.Listeners.Conditions.{ListenerCondition, ListenerConditions}
use kubvernor.Listeners.Convert.{Listener}
use kubvernor.Statuses.Kube.{Condition, Constants, ListenerStatus}
use kubvernor.Deployer.Internal.{to_i32, status_condition, add_conditions, listener_status}

-- No two conditions are of one type.
abbrev pub DistinctTypes : List Condition → Type 0
DistinctTypes [] = Unit
DistinctTypes (q ∷ qs) = All (λ (p : Condition). p.type_ ≢ q.type_) qs × DistinctTypes qs

abbrev without : String → List Condition → List Condition
without t qs = filter_by (λ (q : Condition). not (str_eq q.type_ t)) qs

All-without :
    (P : Condition → Type 0) (t : String) (qs : List Condition) → All P qs → All P (without t qs)
All-without P t [] h = tt
All-without P t (q ∷ qs) (h, hs) = ground (arith, All-without P t qs hs)

without-DistinctTypes :
    (t : String) (qs : List Condition) → DistinctTypes qs → DistinctTypes (without t qs)
without-DistinctTypes t [] h = tt
without-DistinctTypes t (q ∷ qs) (h, hs) =
    ground (arith, without-DistinctTypes t qs hs, All-without (λ p. p.type_ ≢ q.type_) t qs h)

All-snoc :
    (P : Condition → Type 0) (new : Condition) (qs : List Condition)
    → All P qs
    → P new
    → All P (qs ++ new ∷ [])
All-snoc P new [] h k = (k, tt)
All-snoc P new (q ∷ qs) (h, hs) k = (h, All-snoc P new qs hs k)

snoc-DistinctTypes :
    (new : Condition) (qs : List Condition)
    → DistinctTypes qs
    → All (λ (q : Condition). new.type_ ≢ q.type_) qs
    → DistinctTypes (qs ++ new ∷ [])
snoc-DistinctTypes new [] h k = (tt, tt)
snoc-DistinctTypes new (q ∷ qs) (h, hs) (k, ks) =
    (All-snoc (λ p. p.type_ ≢ q.type_) new qs h k, snoc-DistinctTypes new qs hs ks)

not_without :
    (t : String) (qs : List Condition) → All (λ (q : Condition). t ≢ q.type_) (without t qs)
not_without t [] = tt
not_without t (q ∷ qs) = ground (arith, not_without t qs, eq_iff q.type_ t)

to_i32_lem : (n : ℕ) → (to_i32 n < 2 ^ 31) × (n < 2 ^ 31 → to_i32 n ≡ n)
unfolding to_i32
to_i32_lem n = (ground arith, λ h. ground arith)

module _ (c : Constants) (generation : Option ℕ) where
  -- What the loop keeps true of the status.
  abbrev Sound : ListenerStatus → Type 0
  Sound s =
      DistinctTypes s.conditions
      × All (λ (q : Condition). q.observed_generation ≡ generation) s.conditions

  generation_of :
      (lc : ListenerCondition) → (status_condition c generation lc).observed_generation ≡ generation
  unfolding status_condition
  generation_of lc = refl

  add_conditions-Sound :
      (lcs : ListenerConditions) (s : ListenerStatus)
      → Sound s
      → Sound (add_conditions c generation lcs s)
        × ((add_conditions c generation lcs s).attached_routes ≡ s.attached_routes)
        × ((add_conditions c generation lcs s).name ≡ s.name)
  unfolding add_conditions
  add_conditions-Sound [] s sound = (sound, refl, refl)
  add_conditions-Sound (lc ∷ lcs) s (distinct, observed) =
      let new = status_condition c generation lc in
      let kept = without new.type_ s.conditions in
      add_conditions-Sound lcs _ (
        snoc-DistinctTypes new kept (without-DistinctTypes new.type_ s.conditions distinct)
            (not_without new.type_ s.conditions),
        All-snoc (λ q. q.observed_generation ≡ generation) new kept
            (All-without (λ q. q.observed_generation ≡ generation) new.type_ s.conditions observed)
            (generation_of lc),
      )

  -- The status of a listener has the listener's name, and its number of routes if that is a 32-bit
  -- signed integer; the number always is one. No two conditions are of one type, and each was observed
  -- at the generation of the gateway.
  pub listener_status_lem :
      (l : Listener)
      → let status = listener_status c generation l in
        (status.name ≡ l.content.config.name)
        × (status.attached_routes < 2 ^ 31)
        × (l.content.attached_routes < 2 ^ 31 → status.attached_routes ≡ l.content.attached_routes)
        × DistinctTypes status.conditions
        × All (λ (q : Condition). q.observed_generation ≡ generation) status.conditions
  unfolding listener_status
  listener_status_lem l =
      let ((distinct, observed), count, name) =
        add_conditions-Sound l.content.conditions
          (record {
            name = l.content.config.name;
            attached_routes = to_i32 l.content.attached_routes;
            conditions = [];
            supported_kinds = Option.none;
          })
          (tt, tt) in
      let (below, same) = to_i32_lem l.content.attached_routes in
      (name, rw count below, λ h. count ∙ same h, distinct, observed)
