-- ===== src/Gc/Evict/Rule.antt =====
-- One rule for both loops of the eviction: what each single eviction keeps, the loops keep.
use ekapkgs_cli.Prelude.{
  ℕ, zero, suc, ◌+◌, ◌<◌, ◌≡◌, refl, false, some, List, [], ◌∷◌, ◌++◌, append_assoc, contains, leb,
  arith, Bool-cases, inl, inr, ◌⊎◌, sym, ◌∙◌,
}
use ekapkgs_cli.Gc.Evict.{PathEntry, Ref, Sweep, evict_one, pinned, sweep, rounds}

module _ (entries : List PathEntry) (refs : List Ref) (to_free : ℕ) where
  -- The state before an eviction of the entry `e`, which stands in the list.
  pub record MayEvict (e : PathEntry) (s : Sweep) : Type 0 where
    pub front : List PathEntry
    pub back : List PathEntry
    pub listed : entries ≡ front ++ (e ∷ back)
    pub kept : contains e.hash s.evict_set ≡ false
    pub free_of_refs : pinned entries refs e.hash s.evict_set ≡ false
    pub wanting : s.freed < to_free

  sweep_cases :
      (e : PathEntry) (es : List PathEntry) (s : Sweep)
      → (sweep entries refs to_free (e ∷ es) s ≡ sweep entries refs to_free es s)
        ⊎ ((contains e.hash s.evict_set ≡ false)
            × (pinned entries refs e.hash s.evict_set ≡ false)
            × ((sweep entries refs to_free (e ∷ es) s ≡ evict_one e s)
                ⊎ ((sweep entries refs to_free (e ∷ es) s
                      ≡ sweep entries refs to_free es (evict_one e s))
                    × (s.freed + e.size < to_free))))
  unfolding sweep
  sweep_cases e es s = elim (Bool-cases (contains e.hash s.evict_set)) [
    | inl gone ↦ inl (ground arith)
    | inr kept ↦ elim (Bool-cases (pinned entries refs e.hash s.evict_set)) [
      | inl held ↦ inl (ground arith)
      | inr free ↦ elim (Bool-cases (leb to_free (s.freed + e.size))) [
        | inl enough ↦ inr (kept, free, inl (ground arith))
        | inr more ↦ inr (kept, free, inr (ground arith, ground arith))
      ]
    ]
  ]

  module _ {κ} (P : Sweep → Type κ)
      (step : (e : PathEntry) (s : Sweep) → MayEvict e s → P s → P (evict_one e s)) where
    pub sweep_inv :
        (front es : List PathEntry) (s : Sweep)
        → entries ≡ front ++ es
        → s.freed < to_free
        → P s
        → P (sweep entries refs to_free es s)
    sweep_inv front [] s split lt h = unfold sweep in h
    sweep_inv front (e ∷ es) s split lt h =
        let split' : entries ≡ (front ++ (e ∷ [])) ++ es =
          split ∙ sym (append_assoc front (e ∷ []) es) in
        elim (sweep_cases e es s) [
          | inl same ↦ rw same (sweep_inv (front ++ (e ∷ [])) es s split' lt h)
          | inr (kept, free, last) ↦
              let may : MayEvict e s = record {
                front = front;
                back = es;
                listed = split;
                kept = kept;
                free_of_refs = free;
                wanting = lt;
              } in
              elim last [
                | inl stop ↦ rw stop (step e s may h)
                | inr (more, lt') ↦
                    rw more
                      (sweep_inv (front ++ (e ∷ [])) es (evict_one e s) split' lt' (step e s may h))
              ]
        ]

    -- The rule for the outer loop: `P` does not look at `evicted_any`.
    pub rounds_inv :
        ((s : Sweep) → P s → P (record s { evicted_any = false }))
        → (fuel : ℕ) (s t : Sweep) → P s
        → rounds entries refs to_free fuel s ≡ some t
        → P t
    unfolding rounds
    rounds_inv reset zero s t h p = cc
    rounds_inv reset (suc fuel) s t h p = elim (Bool-cases (leb to_free s.freed)) [
      | inl enough ↦ let same : s ≡ t = ground arith in rw same at h
      | inr more ↦
          let next : Sweep =
            sweep entries refs to_free entries (record s { evicted_any = false }) in
          let held : P next =
            sweep_inv [] entries (record s { evicted_any = false }) refl (ground arith)
              (reset s h) in
          elim (Bool-cases next.evicted_any) [
            | inl again ↦ rounds_inv reset fuel next t held (ground arith)
            | inr idle ↦ let same : next ≡ t = ground arith in rw same at held
          ]
    ]
