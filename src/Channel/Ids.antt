-- ===== src/Channel/Ids.antt =====
-- src/grilio_channel.c, grilio_channel_generate_id: the ids of requests and of serialization blocks
-- are 32-bit numbers that are not 0 and not in a table. The `while` loop runs on fuel.
use libgrilio.Base.{
  ap, sym, ◌∙◌, ℕ, zero, suc, ◌+◌, ◌%◌, ◌^◌, ◌≤◌, ◌<◌, ◌≡◌, refl, ◌≢◌, inl, inr, Bool, false, ◌||◌,
  List, [], ◌∷◌, arith, ◌==◌, if◌then◌else◌, length, Bool-cases,
}
use libgrilio.Base.Table.{contains, remove, contains-remove, length-remove-lt}

-- `(*id)++` on a guint.
abbrev pub next_id : ℕ → ℕ
next_id id = (id + 1) % 2 ^ 32

module _ {ℓ} {V : Type ℓ} where
  -- while (!(*id) || g_hash_table_contains(table, GINT_TO_POINTER((*id)))) (*id)++;
  id_loop : ℕ → List (ℕ × V) → ℕ → ℕ
  id_loop zero table id = id
  id_loop (suc fuel) table id =
      let again = id_loop fuel table (next_id id) in
      if id == 0 || contains id table then again else id

  -- There are two rounds more than the table has entries.
  unfoldable pub generate_id : List (ℕ × V) → ℕ → ℕ
  unfolding id_loop
  generate_id table id = id_loop (length table + 2) table (next_id id)

  -- The ids that may not be given out: 0, and those in use.
  abbrev is_taken : List (ℕ × V) → ℕ → Bool
  is_taken table id = id == 0 || contains id table

  keys : List (ℕ × V) → List (ℕ × ℕ)
  keys [] = []
  keys ((k, v) ∷ t) = (k, 0) ∷ keys t

  contains-keys : (k : ℕ) (t : List (ℕ × V)) → contains k (keys t) ≡ contains k t
  unfolding keys contains
  contains-keys k [] = refl
  contains-keys k ((j, v) ∷ t) = ground (arith, contains-keys k t)

  length-keys : (t : List (ℕ × V)) → length (keys t) ≡ length t
  unfolding keys
  length-keys [] = refl
  length-keys ((j, v) ∷ t) = ap suc (length-keys t)

  -- `bad` is what is left of the taken ids among those that the next `fuel` rounds try.
  id_loop_free :
      (fuel : ℕ) (table : List (ℕ × V)) (id : ℕ) (bad : List (ℕ × ℕ))
      → id < 2 ^ 32
      → fuel + 1 < 2 ^ 32
      → length bad ≤ fuel
      → ((i : ℕ) → i ≤ fuel → is_taken table ((id + i) % 2 ^ 32) ≡ contains ((id + i) % 2 ^ 32) bad)
      → is_taken table (id_loop fuel table id) ≡ false
  unfolding id_loop contains
  id_loop_free zero table id [] small bound enough same = ground (arith, same 0 (omega arith))
  id_loop_free zero table id (b ∷ bad) small bound enough same = absurd (omega arith)
  id_loop_free (suc fuel) table id bad small bound enough same =
      let start : (id + 0) % 2 ^ 32 ≡ id = omega arith in
      let here : is_taken table id ≡ contains id bad = rw start at (same 0 (omega arith)) in
      elim (Bool-cases (is_taken table id)) [
        | inl taken ↦ rw taken (
            id_loop_free fuel table (next_id id) (remove id bad) (omega arith) (omega arith)
              (omega (arith, length-remove-lt id bad (sym here ∙ taken)))
              λ i h.
                let step : (next_id id + i) % 2 ^ 32 ≡ (id + suc i) % 2 ^ 32 = omega arith in
                let other : id ≢ (id + suc i) % 2 ^ 32 = omega arith in
                rw step (
                  same (suc i) (omega arith)
                  ∙ ground (arith, contains-remove id ((id + suc i) % 2 ^ 32) bad)))
        | inr free ↦ rw free free
      ]

  id_loop-lt :
      (fuel : ℕ) (table : List (ℕ × V)) (id : ℕ) → id < 2 ^ 32 → id_loop fuel table id < 2 ^ 32
  unfolding id_loop
  id_loop-lt zero table id h = h
  id_loop-lt (suc fuel) table id h =
      ground (arith, id_loop-lt fuel table (next_id id) (omega arith))

  free_of_is_taken :
      (table : List (ℕ × V)) (id : ℕ)
      → is_taken table id ≡ false
      → (id ≢ 0) × (contains id table ≡ false)
  free_of_is_taken table id h = ground arith

  generate_id-is_taken :
      (table : List (ℕ × V)) (id : ℕ)
      → length table + 3 < 2 ^ 32
      → is_taken table (generate_id table id) ≡ false
  unfolding generate_id contains
  generate_id-is_taken table id h =
      id_loop_free (length table + 2) table (next_id id) ((0, 0) ∷ keys table) (omega arith)
        (omega arith) (omega (arith, length-keys table))
        λ i _. ground (arith, contains-keys ((next_id id + i) % 2 ^ 32) table)

  -- With fewer than 2 ^ 32 - 3 ids in use the search for an id ends, and it ends at an id that is
  -- not 0, is not in the table and fits a guint.
  pub generate_id_free :
      (table : List (ℕ × V)) (id : ℕ)
      → length table + 3 < 2 ^ 32
      → (generate_id table id ≢ 0)
        × (contains (generate_id table id) table ≡ false)
        × (generate_id table id < 2 ^ 32)
  unfolding generate_id
  generate_id_free table id h =
      let (nonzero, unused) = free_of_is_taken table _ (generate_id-is_taken table id h) in
      (nonzero, unused, id_loop-lt (length table + 2) table (next_id id) (omega arith))
