-- ===== src/Gc/Loops/Accesses.antt =====
-- What becomes of an access in `gc_loop` and `cas_gc_loop`, crates/ekapkgs-serve/src/gc.rs.
use ekapkgs_cli.Prelude.{
  ℕ, ◌≤◌, ◌≡◌, ◌⊎◌, refl, ◌∙◌, inl, inr, Bool, true, false, List, [], ◌∷◌, ◌++◌, Bytes, contains,
  contains-append, contains_head, length, leb, ◌==◌, All, Bool-cases, arith,
}
use ekapkgs_cli.Gc.Loops.{GcEvent, access, tick, LoopState, turn, turns}

-- Whether the interval ticks among the events.
unfoldable pub has_tick : List (ℕ × GcEvent) → Bool
has_tick [] = false
has_tick ((now, access hash) ∷ es) = has_tick es
has_tick ((now, tick) ∷ es) = true

-- `Fresh` holds once an access of `hash` at the time `t` has been flushed.
module _ {S : Type 0} (flush : ℕ → List Bytes → S → S) (collect : S → S) (hash : Bytes) (t : ℕ)
    (Fresh : S → Type 0)
    (flushed : (now : ℕ) (batch : List Bytes) (s : S)
      → t ≤ now
      → contains hash batch ≡ true
      → Fresh (flush now batch s))
    (kept : (now : ℕ) (batch : List Bytes) (s : S) → t ≤ now → Fresh s → Fresh (flush now batch s))
    (collected : (s : S) → Fresh s → Fresh (collect s)) where
  turn-Fresh :
      (now : ℕ) (e : GcEvent) (l : LoopState S)
      → t ≤ now
      → Fresh l.store
      → Fresh (turn flush collect now e l).store
  unfolding turn
  turn-Fresh now (access h) l late fresh =
      elim (Bool-cases (leb 500 (length (l.pending ++ (h ∷ []))))) [
        | inl full ↦ rw full (kept now (l.pending ++ (h ∷ [])) l.store late fresh)
        | inr room ↦ rw room fresh
      ]
  turn-Fresh now tick l late fresh = elim (Bool-cases (length l.pending == 0)) [
    | inl idle ↦ rw idle (collected l.store fresh)
    | inr waiting ↦ rw waiting (collected _ (kept now l.pending l.store late fresh))
  ]

  turns-Fresh :
      (es : List (ℕ × GcEvent)) (l : LoopState S)
      → All (λ (e : ℕ × GcEvent). t ≤ e.0) es
      → Fresh l.store
      → Fresh (turns flush collect es l).store
  unfolding turns
  turns-Fresh [] l late fresh = fresh
  turns-Fresh ((now, e) ∷ es) l late fresh =
      turns-Fresh es (turn flush collect now e l) late.1 (turn-Fresh now e l late.0 fresh)

  -- An access that waits, or the batch of one, is flushed at the next tick.
  tick_flushes :
      (now : ℕ) (l : LoopState S)
      → t ≤ now
      → contains hash l.pending ≡ true
      → Fresh (turn flush collect now tick l).store
  unfolding turn
  tick_flushes now l late waits =
      let waiting : (length l.pending == 0) ≡ false = nonempty l.pending waits in
      rw waiting (collected _ (flushed now l.pending l.store late waits))
    where
      nonempty : (hs : List Bytes) → contains hash hs ≡ true → (length hs == 0) ≡ false
      nonempty [] h = unfold contains in absurd (ground (arith, h))
      nonempty (x ∷ hs) h = ground arith

  access_waits :
      (now : ℕ) (h : Bytes) (l : LoopState S)
      → t ≤ now
      → contains hash (l.pending ++ (h ∷ [])) ≡ true
      → (contains hash (turn flush collect now (access h) l).pending ≡ true)
        ⊎ Fresh (turn flush collect now (access h) l).store
  unfolding turn
  access_waits now h l late waits = elim (Bool-cases (leb 500 (length (l.pending ++ (h ∷ []))))) [
    | inl full ↦ inr (rw full (flushed now (l.pending ++ (h ∷ [])) l.store late waits))
    | inr room ↦ inl (rw room waits)
  ]

  -- With a tick to come, what waits or is fresh ends fresh.
  turns-waiting :
      (es : List (ℕ × GcEvent)) (l : LoopState S)
      → All (λ (e : ℕ × GcEvent). t ≤ e.0) es
      → has_tick es ≡ true
      → (contains hash l.pending ≡ true) ⊎ Fresh l.store
      → Fresh (turns flush collect es l).store
  unfolding turns has_tick
  turns-waiting es l late ticks (inr fresh) = turns-Fresh es l late fresh
  turns-waiting [] l late ticks (inl waits) = absurd (ground arith)
  turns-waiting ((now, tick) ∷ es) l late ticks (inl waits) =
      turns-Fresh es (turn flush collect now tick l) late.1 (tick_flushes now l late.0 waits)
  turns-waiting ((now, access h) ∷ es) l late ticks (inl waits) =
      turns-waiting es (turn flush collect now (access h) l) late.1 ticks
        (access_waits now h l late.0 (contains-append hash l.pending (h ∷ []) ∙ rw waits refl))

  pub turns-access :
      (es : List (ℕ × GcEvent)) (l : LoopState S)
      → All (λ (e : ℕ × GcEvent). t ≤ e.0) es
      → has_tick es ≡ true
      → Fresh (turns flush collect ((t, access hash) ∷ es) l).store
  unfolding turns contains
  turns-access es l late ticks =
      turns-waiting es (turn flush collect t (access hash) l) late ticks (
        access_waits t hash l (omega arith)
          (contains-append hash l.pending (hash ∷ []) ∙ ground (arith, contains_head hash [])))
