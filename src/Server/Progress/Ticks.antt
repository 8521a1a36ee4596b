-- ===== src/Server/Progress/Ticks.antt =====
-- An event is sent exactly when the counts moved.
use semcast.Base.{
  ◌≡◌, refl, sym, ap, subst, Bool, true, false, Option, none, some, Bool-cases, inl, inr, ◌⊎◌, ◌≢◌,
}
use semcast.Server.Progress.Counts.{FunnelCounts, is_semantic, same, same_iff}
use semcast.Server.Progress.{
  ExecutionPlan, snapshot, changed, ProgressEvent, funnel, snapshot_if_changed,
}

true_is_false : {b : Bool} → b ≡ true → b ≡ false → ⊥
true_is_false p q = cc

-- What one tick did, told from the snapshot that it took.
abbrev pub Ticked : FunnelCounts → FunnelCounts → Option ProgressEvent × FunnelCounts → Type 0
Ticked now last (event, kept) =
    ((event ≡ none) × (kept ≡ last) × ((now ≡ last) ⊎ (is_semantic now ≡ false)))
    ⊎ ((event ≡ some (funnel now)) × (kept ≡ now) × (now ≢ last) × (is_semantic now ≡ true))

differs : (now last : FunnelCounts) → same now last ≡ false → now ≢ last
differs now last h q = true_is_false ((same_iff now last).1 q) h

changed-Ticked : (now last : FunnelCounts) → Ticked now last (changed now last)
unfolding changed
changed-Ticked now last = elim (Bool-cases (same now last)) [
  | inl h ↦ rw (h, changed) (inl (refl, refl, inl ((same_iff now last).0 h)))
  | inr h ↦ elim (Bool-cases (is_semantic now)) [
    | inl k ↦ rw (h, k, changed) (inr (refl, refl, differs now last h, refl))
    | inr k ↦ rw (h, k, changed) (inl (refl, refl, inr refl))
  ]
]

quiet :
    (now kept : FunnelCounts)
    → (now ≡ kept) ⊎ (is_semantic now ≡ false)
    → changed now kept ≡ (none, kept)
unfolding changed
quiet now kept (inl e) = let h = (same_iff now kept).1 e in rw (h, changed) refl
quiet now kept (inr k) = elim (Bool-cases (same now kept)) [
  | inl h ↦ rw (h, changed) refl
  | inr h ↦ rw (h, k, changed) refl
]

quiet_after :
    (now last : FunnelCounts) (r : Option ProgressEvent × FunnelCounts)
    → Ticked now last r
    → changed now r.1 ≡ (none, r.1)
quiet_after now last (event, kept) (inl (_, e, why)) =
    subst (λ k. changed now k ≡ (none, k)) (sym e) (quiet now last why)
quiet_after now last (event, kept) (inr (_, e, _, _)) = quiet now kept (inl (sym e))

-- A tick sends the snapshot and remembers it, if it is semantic and differs from the last one sent;
-- otherwise it sends nothing and remembers what it did. A second tick before any counter moves
-- sends nothing.
pub snapshot_if_changed-Ticked :
    (plan : ExecutionPlan) (now last : FunnelCounts)
    → snapshot plan ≡ some now
    → (r : Option ProgressEvent × FunnelCounts) × (snapshot_if_changed plan last ≡ some r)
      × Ticked now last r
      × (snapshot_if_changed plan r.1 ≡ some (none, r.1))
unfolding snapshot_if_changed
snapshot_if_changed-Ticked plan now last e = (
  changed now last,
  rw (e, snapshot_if_changed) refl,
  changed-Ticked now last,
  rw (e, snapshot_if_changed)
      (ap some (quiet_after now last (changed now last) (changed-Ticked now last))),
)
