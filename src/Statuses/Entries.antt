-- ===== src/Statuses/Entries.antt =====
-- How many entries for a gateway the status of a route has.
use kubvernor.Prelude.{ℕ, zero, suc, String, Bool, List, [], length, filter_by, unwrap_or}
use kubvernor.Keys.{ResourceKey}
use kubvernor.Statuses.Kube.{Condition, KubeRoute}
use kubvernor.Statuses.Parents.{is_own, parent_status, parents_of, with_parents}

abbrev pub count : {A : Type 0} → (A → Bool) → List A → ℕ
count t xs = length (filter_by t xs)

module _ (controller_name : String) where
  -- The entries of the controller for a gateway in the status of a route.
  abbrev pub entries : ResourceKey → KubeRoute → ℕ
  entries gateway r = count (is_own controller_name gateway) (parents_of r)

  -- The parents that a route gives and that name the gateway.
  abbrev pub references : ResourceKey → KubeRoute → ℕ
  references gateway r =
      count (λ q. is_own controller_name gateway (parent_status controller_name [] q))
        (unwrap_or r.parent_refs [])

  -- A route whose status is updated for a gateway a number of times.
  abbrev pub updates : ℕ → ResourceKey → List Condition → KubeRoute → KubeRoute
  updates zero gateway conditions r = r
  updates (suc n) gateway conditions r =
      with_parents controller_name gateway conditions (updates n gateway conditions r)
