-- ===== src/Store/Stream/Claimed.antt =====
-- About what claiming keeps in a group.
use calod.Prelude.{
  ℕ, zero, suc, ◌≡◌, Bool, false, List, [], ◌∷◌, Str, str_Eq, Option-cases, Bool-cases, inl, inr,
  ltb, ◌-◌,
}
use calod.Prelude.Map.{get}
use calod.Store.Stream.Ids.{StreamId, id_Eq, Tree, Fields}
use calod.Store.Stream.Groups.{ConsumerGroup}
use calod.Store.Stream.Claims.{
  ClaimOptions, claim_one, claim_all, autoclaim_one, autoclaim_from, left_after,
}
use calod.Store.Stream.Keeps.{Keeps, Keeps-refl, Keeps-trans, purge-Keeps, pass-Keeps}

module _ (entries : Tree Fields) (consumer : Str) (now_ms : ℕ) where
  -- Without FORCE, only pending entries are claimed.
  claim_one-Keeps :
      (opt : ClaimOptions) (id : StreamId) (g : ConsumerGroup)
      → opt.force ≡ false
      → Keeps consumer g (claim_one entries consumer opt now_ms id g).0
  unfolding claim_one
  claim_one-Keeps opt id g unforced = elim (Option-cases (get id g.pending)) [
    | inl absent ↦ elim (Option-cases (get id entries)) [
      | inl deleted ↦ rw (absent, deleted, claim_one) (Keeps-refl g)
      | inr (fields, there) ↦ rw (absent, there, unforced, claim_one) (Keeps-refl g)
    ]
    | inr (p, pending) ↦ elim (Option-cases (get id entries)) [
      | inl deleted ↦ rw (pending, deleted, claim_one) (purge-Keeps consumer id p g pending)
      | inr (fields, there) ↦
          elim (Bool-cases (ltb (now_ms - p.delivery_time_ms) opt.min_idle_ms)) [
            | inl busy ↦ rw (pending, there, busy, claim_one) (Keeps-refl g)
            | inr idle ↦
                rw (pending, there, idle, claim_one) (pass-Keeps consumer id p g pending _ _ now_ms)
          ]
    ]
  ]

  pub claim_all-Keeps :
      (opt : ClaimOptions) (ids : List StreamId) (g : ConsumerGroup)
      → opt.force ≡ false
      → Keeps consumer g (claim_all entries consumer opt now_ms ids g).0
  unfolding claim_all
  claim_all-Keeps opt [] g unforced = Keeps-refl g
  claim_all-Keeps opt (id ∷ ids) g unforced =
      Keeps-trans (claim_one-Keeps opt id g unforced)
        (claim_all-Keeps opt ids (claim_one entries consumer opt now_ms id g).0 unforced)

  module _ (min_idle_ms : ℕ) (justid : Bool) where
    autoclaim_one-Keeps :
        (id : StreamId) (g : ConsumerGroup)
        → Keeps consumer g (autoclaim_one entries consumer min_idle_ms now_ms justid id g).0
    unfolding autoclaim_one
    autoclaim_one-Keeps id g = elim (Option-cases (get id g.pending)) [
      | inl absent ↦ rw (absent, autoclaim_one) (Keeps-refl g)
      | inr (p, pending) ↦ elim (Bool-cases (ltb (now_ms - p.delivery_time_ms) min_idle_ms)) [
        | inl busy ↦ rw (pending, busy, autoclaim_one) (Keeps-refl g)
        | inr idle ↦ elim (Option-cases (get id entries)) [
          | inl deleted ↦
              rw (pending, idle, deleted, autoclaim_one) (purge-Keeps consumer id p g pending)
          | inr (fields, there) ↦
              rw (pending, idle, there, autoclaim_one)
                (pass-Keeps consumer id p g pending _ _ now_ms)
        ]
      ]
    ]

    pub autoclaim_from-Keeps :
        (left : ℕ) (ids : List StreamId) (g : ConsumerGroup)
        → Keeps consumer g (autoclaim_from entries consumer min_idle_ms now_ms justid left ids g).0
    unfolding autoclaim_from
    autoclaim_from-Keeps left [] g = Keeps-refl g
    autoclaim_from-Keeps zero (id ∷ ids) g = Keeps-refl g
    autoclaim_from-Keeps (suc left) (id ∷ ids) g =
        let step = autoclaim_one entries consumer min_idle_ms now_ms justid id g in
        Keeps-trans (autoclaim_one-Keeps id g)
          (autoclaim_from-Keeps (left_after step.1 (suc left)) ids step.0)
