-- ===== src/Deployer/Verdicts.antt =====
-- Which listeners are accepted and programmed when a gateway is deployed.
use kubvernor.Prelude.{
  ℕ, ◌<◌, ◌≤◌, Bool, true, false, not, ◌&&◌, none, some, [], ◌∷◌, nat_eq, All, ◌≡◌, ◌↔◌, refl, ◌∙◌,
  arith, if◌then◌else◌,
}
use kubvernor.Prelude.Maps.{is_some}
use kubvernor.Listeners.Conditions.{
  ListenerCondition, ListenerConditions, ResolvedRefs, resolved_refs, accepted, not_accepted,
  programmed, not_programmed, unresolved_route_refs, replace, get, discriminant,
}
use kubvernor.Listeners.Laws.{Ascending, get-replace, replace-Ascending}
use kubvernor.Deployer.Internal.{
  insert, remove, any_resolved_refs, adjust_refs, adjust_resolved, adjust_unresolved,
  adjust_conditions, accept, reject,
}

-- What `q` finds after conditions were replaced.
abbrev hits : ListenerCondition → ListenerCondition → Bool
hits q c = nat_eq (discriminant q) (discriminant c)

get-insert :
    (q c : ListenerCondition) (cs : ListenerConditions)
    → get q (insert c cs) ≡ (if hits q c && not (is_some (get c cs)) then some c else get q cs)
unfolding insert
get-insert q c cs = ground (arith, get-replace q c cs)

insert-Ascending :
    (c : ListenerCondition) (cs : ListenerConditions) → Ascending cs → Ascending (insert c cs)
unfolding insert
insert-Ascending c cs a = ground (arith, replace-Ascending c cs a)

get-above :
    (q : ListenerCondition) (n : ℕ) (cs : ListenerConditions)
    → discriminant q ≤ n
    → All (λ d. n < discriminant d) cs
    → get q cs ≡ none
unfolding get
get-above q n [] le h = refl
get-above q n (d ∷ cs) le (h, hs) = ground (arith, get-above q n cs le hs)

get-same :
    (p q : ListenerCondition) (cs : ListenerConditions)
    → discriminant p ≡ discriminant q
    → get p cs ≡ get q cs
unfolding get
get-same p q [] e = refl
get-same p q (d ∷ cs) e = ground (arith, get-same p q cs e)

get-remove :
    (q c : ListenerCondition) (cs : ListenerConditions)
    → Ascending cs
    → get q (remove c cs) ≡ (if hits q c then none else get q cs)
unfolding get remove
get-remove q c [] a = ground arith
get-remove q c (d ∷ cs) (h, a) =
    ground (arith, get-remove q c cs a, get-above q (discriminant d) cs)

All-remove :
    (n : ℕ) (c : ListenerCondition) (cs : ListenerConditions)
    → All (λ d. n < discriminant d) cs
    → All (λ d. n < discriminant d) (remove c cs)
unfolding remove
All-remove n c [] h = tt
All-remove n c (d ∷ cs) (h, hs) = ground (arith, All-remove n c cs hs)

remove-Ascending :
    (c : ListenerCondition) (cs : ListenerConditions) → Ascending cs → Ascending (remove c cs)
unfolding remove
remove-Ascending c [] a = tt
remove-Ascending c (d ∷ cs) (h, a) =
    ground (arith, remove-Ascending c cs a, All-remove (discriminant d) c cs h)

-- Whether a listener with these references can be programmed.
abbrev pub usable : ResolvedRefs → Bool
usable (ResolvedRefs.resolved _) = true
usable (ResolvedRefs.resolved_with_not_allowed_routes _) = true
usable (ResolvedRefs.invalid_backend _) = true
usable ResolvedRefs.invalid_allowed_routes = false
usable (ResolvedRefs.invalid_certificates _) = false
usable (ResolvedRefs.ref_not_permitted _) = false

-- Whether a listener has routes with references that are not resolved, and no other routes.
abbrev pub blocked : ℕ → ListenerConditions → Bool
blocked resolved_count cs = is_some (get unresolved_route_refs cs) && nat_eq resolved_count 0

abbrev Verdict : ResolvedRefs → ListenerConditions → ListenerConditions → Type 0
Verdict refs cs ds =
    Ascending ds
    × ((get programmed ds ≡ some programmed) ↔ (usable refs ≡ true))
    × ((get accepted ds ≡ some accepted) ↔ (usable refs ≡ true))
    × (get unresolved_route_refs ds ≡ get unresolved_route_refs cs)

accept_lem :
    (cs : ListenerConditions)
    → Ascending cs
    → Ascending (accept cs)
      × (get programmed (accept cs) ≡ some programmed)
      × (get accepted (accept cs) ≡ some accepted)
      × (get unresolved_route_refs (accept cs) ≡ get unresolved_route_refs cs)
unfolding discriminant
accept_lem cs a = (
  replace-Ascending programmed (replace accepted cs) (replace-Ascending accepted cs a),
  get-replace programmed programmed (replace accepted cs),
  get-replace accepted programmed (replace accepted cs) ∙ get-replace accepted accepted cs,
  get-replace unresolved_route_refs programmed (replace accepted cs)
      ∙ get-replace unresolved_route_refs accepted cs,
)

reject_lem :
    (cs : ListenerConditions)
    → Ascending cs
    → get programmed cs ≡ none
    → Ascending (reject cs)
      × (get programmed (reject cs) ≡ some not_programmed)
      × (get accepted (reject cs) ≡ some not_accepted)
      × (get unresolved_route_refs (reject cs) ≡ get unresolved_route_refs cs)
unfolding discriminant
reject_lem cs a e = (
  replace-Ascending not_accepted (insert not_programmed cs) (insert-Ascending not_programmed cs a),
  get-replace programmed not_accepted (insert not_programmed cs)
      ∙ get-insert programmed not_programmed cs
      ∙ (let same = get-same not_programmed programmed cs refl in ground arith),
  get-replace accepted not_accepted (insert not_programmed cs),
  get-replace unresolved_route_refs not_accepted (insert not_programmed cs)
      ∙ get-insert unresolved_route_refs not_programmed cs,
)

adjust_refs_lem :
    (refs : ResolvedRefs) (cs : ListenerConditions)
    → Ascending cs
    → get programmed cs ≡ none
    → Verdict refs cs (adjust_refs refs cs)
unfolding adjust_refs discriminant
adjust_refs_lem (ResolvedRefs.resolved _) cs a e =
    let (b, p, q, u) = accept_lem cs a in (b, (λ _. refl, λ _. p), (λ _. refl, λ _. q), u)
adjust_refs_lem (ResolvedRefs.resolved_with_not_allowed_routes _) cs a e =
    let (b, p, q, u) = accept_lem cs a in (b, (λ _. refl, λ _. p), (λ _. refl, λ _. q), u)
adjust_refs_lem (ResolvedRefs.invalid_backend _) cs a e =
    let (b, p, q, u) = accept_lem cs a in (b, (λ _. refl, λ _. p), (λ _. refl, λ _. q), u)
adjust_refs_lem ResolvedRefs.invalid_allowed_routes cs a e =
    let (b, p, q, u) = reject_lem cs a e in
    (
      b,
      (λ h. absurd (ground arith), λ h. absurd (ground arith)),
      (λ h. absurd (ground arith), λ h. absurd (ground arith)),
      u,
    )
adjust_refs_lem (ResolvedRefs.ref_not_permitted _) cs a e =
    let (b, p, q, u) = reject_lem cs a e in
    (
      b,
      (λ h. absurd (ground arith), λ h. absurd (ground arith)),
      (λ h. absurd (ground arith), λ h. absurd (ground arith)),
      u,
    )
adjust_refs_lem (ResolvedRefs.invalid_certificates _) cs a e =
    let p = get-replace programmed not_programmed (remove accepted cs) in
    let q =
      get-replace accepted not_programmed (remove accepted cs)
      ∙ get-remove accepted accepted cs a in
    (
      replace-Ascending not_programmed (remove accepted cs) (remove-Ascending accepted cs a),
      (λ h. absurd (ground arith), λ h. absurd (ground arith)),
      (λ h. absurd (ground arith), λ h. absurd (ground arith)),
      get-replace unresolved_route_refs not_programmed (remove accepted cs)
          ∙ get-remove unresolved_route_refs accepted cs a,
    )

-- The conditions after the test of the routes.
abbrev outcome : Bool → Bool → ListenerConditions → ListenerConditions
outcome unresolved none_resolved ds =
    if unresolved
    then remove any_resolved_refs
        (if none_resolved then replace not_accepted (replace not_programmed ds) else ds)
    else ds

outcome_lem :
    (unresolved none_resolved v : Bool) (ds : ListenerConditions)
    → Ascending ds
    → (get programmed ds ≡ some programmed) ↔ (v ≡ true)
    → (get accepted ds ≡ some accepted) ↔ (v ≡ true)
    → Ascending (outcome unresolved none_resolved ds)
      × ((get programmed (outcome unresolved none_resolved ds) ≡ some programmed)
          ↔ ((v && not (unresolved && none_resolved)) ≡ true))
      × ((get accepted (outcome unresolved none_resolved ds) ≡ some accepted)
          ↔ ((v && not (unresolved && none_resolved)) ≡ true))
unfolding discriminant
outcome_lem false none_resolved true ds a p q = (a, p, q)
outcome_lem false none_resolved false ds a p q = (a, p, q)
outcome_lem true false v ds a p q =
    let f = get-remove programmed any_resolved_refs ds a in
    let g = get-remove accepted any_resolved_refs ds a in
    (remove-Ascending any_resolved_refs ds a, ground (arith, p), ground (arith, q))
outcome_lem true true v ds a p q =
    let once = replace not_programmed ds in
    let b : Ascending once = replace-Ascending not_programmed ds a in
    let c : Ascending (replace not_accepted once) = replace-Ascending not_accepted once b in
    let f =
      get-remove programmed any_resolved_refs (replace not_accepted once) c
      ∙ get-replace programmed not_accepted once
      ∙ get-replace programmed not_programmed ds in
    let g =
      get-remove accepted any_resolved_refs (replace not_accepted once) c
      ∙ get-replace accepted not_accepted once in
    (
      remove-Ascending any_resolved_refs (replace not_accepted once) c,
      (λ h. absurd (ground arith), λ h. absurd (ground arith)),
      (λ h. absurd (ground arith), λ h. absurd (ground arith)),
    )

-- In a set of conditions with at most one of each kind, with references and not yet programmed,
-- `adjust_conditions` leaves at most one of each kind. The listener is programmed, and it is accepted,
-- exactly if its references are usable and its routes are not all without their references.
pub adjust_conditions_iff :
    (resolved_count : ℕ) (refs : ResolvedRefs) (cs : ListenerConditions)
    → Ascending cs
    → get any_resolved_refs cs ≡ some (resolved_refs refs)
    → get programmed cs ≡ none
    → Ascending (adjust_conditions resolved_count cs)
      × ((get programmed (adjust_conditions resolved_count cs) ≡ some programmed)
          ↔ ((usable refs && not (blocked resolved_count cs)) ≡ true))
      × ((get accepted (adjust_conditions resolved_count cs) ≡ some accepted)
          ↔ ((usable refs && not (blocked resolved_count cs)) ≡ true))
unfolding adjust_conditions adjust_resolved adjust_unresolved discriminant
adjust_conditions_iff n refs cs a r e =
    let ds = adjust_refs refs cs in
    let (b, p, q, u) = adjust_refs_lem refs cs a e in
    rw (r, u)
      (outcome_lem (is_some (get unresolved_route_refs cs)) (nat_eq n 0) (usable refs) ds b p q)
