-- ===== src/Chunked/Patch.antt =====
-- A chunk, and the map of chunks, before and after a part of a write is put into them.
use native.Mathlib.Nat.{div-add-mod'}
use mathlib.Core.Path.{subst}
use mizl_h_public.Base.{
  ℕ, ◌+◌, ◌*◌, ◌/◌, ◌%◌, ◌^◌, ◌≤◌, ◌<◌, ◌≡◌, refl, ap, sym, ◌∙◌, ◌⊎◌, inl, inr, List, some, length,
  get_elem?, overwrite, ◌==◌, arith, Bool-cases, length-overwrite, get_elem?-overwrite_lt,
  get_elem?-overwrite_ge, get_elem?-overwrite_self, ==_iff,
}
use mizl_h_public.Chunked.{FreeMemChunk, ChunkedFreeMemView, grow_start, grow_end}
use mizl_h_public.Chunked.Map.{get, insert, get-insert}
use mizl_h_public.Chunked.Cells.{cell, chunk_cell, IsChunk, AreChunks, cell-eq-cell_at}

-- The chunk that one round leaves, its written range grown around `off..off + n`.
abbrev pub grown : ℕ → ℕ → FreeMemChunk → FreeMemChunk
grown off n info = grow_end (off + n) (grow_start off info)

pub record Grown (len off n : ℕ) (old new : FreeMemChunk) : Type 0 where
  pub same_bytes : new.bytes ≡ old.bytes
  pub starts : new.range_start ≤ off
  pub ends : off + n ≤ new.range_start + new.range_len
  pub starts_before : new.range_start ≤ old.range_start
  pub ends_behind : old.range_start + old.range_len ≤ new.range_start + new.range_len
  pub within : new.range_start + new.range_len ≤ len

pub grown-Grown :
    (len off n : ℕ) (info : FreeMemChunk)
    → len < 2 ^ 63
    → off + n ≤ len
    → IsChunk len info
    → Grown len off n info (grown off n info)
grown-Grown len off n info h k v = record {
  same_bytes = ground arith;
  starts = ground (arith, v.within);
  ends = ground (arith, v.within);
  starts_before = ground (arith, v.within);
  ends_behind = ground (arith, v.within);
  within = ground (arith, v.within);
}

-- The cells of a chunk after `part` is written at `off`.
abbrev pub patched : ℕ → List ℕ → FreeMemChunk → FreeMemChunk
patched off part info = record info { bytes = overwrite info.bytes off part }

module _ (len off : ℕ) (part : List ℕ) (old new : FreeMemChunk) (v : IsChunk len old)
    (g : Grown len off (length part) old new) where
  pub patched-IsChunk : off + length part ≤ len → IsChunk len (patched off part new)
  patched-IsChunk h = record {
    full =
        length-overwrite new.bytes off part (omega (arith, ap length g.same_bytes, v.full, h))
        ∙ ap length g.same_bytes
        ∙ v.full;
    within = g.within;
  }

  pub chunk_cell-patched :
      (i : ℕ)
      → off + length part ≤ len
      → i < length part
      → chunk_cell (some (patched off part new)) (off + i) ≡ get_elem? part i
  chunk_cell-patched i h k =
      let e =
        get_elem?-overwrite_self new.bytes off i part
          (omega (arith, ap length g.same_bytes, v.full)) k in
      ground (arith, e, g)

  pub chunk_cell-kept :
      (o b : ℕ)
      → off + length part ≤ len
      → (o < off) ⊎ (off + length part ≤ o)
      → chunk_cell (some old) o ≡ some b
      → chunk_cell (some (patched off part new)) o ≡ some b
  chunk_cell-kept o b h k e = ground (arith, same k, e, g)
    where
      room : off ≤ length new.bytes
      room = omega (arith, ap length g.same_bytes, v.full)

      same :
          (o < off) ⊎ (off + length part ≤ o)
          → get_elem? (overwrite new.bytes off part) o ≡ get_elem? old.bytes o
      same (inl p) =
          get_elem?-overwrite_lt new.bytes off o part p room ∙ ap (λ l. get_elem? l o) g.same_bytes
      same (inr p) =
          get_elem?-overwrite_ge new.bytes off o part p room ∙ ap (λ l. get_elem? l o) g.same_bytes

get_self :
    (idx : ℕ) (info : FreeMemChunk) (m : List (ℕ × FreeMemChunk))
    → get idx (insert idx info m) ≡ some info
get_self idx info m = ground (arith, get-insert idx idx info m)

get_at :
    (idx j : ℕ) (info : FreeMemChunk) (m : List (ℕ × FreeMemChunk))
    → idx ≡ j
    → get j (insert idx info m) ≡ some info
get_at idx j info m e = ap (λ k. get k (insert idx info m)) (sym e) ∙ get_self idx info m

pub AreChunks-insert :
    (len idx : ℕ) (new : FreeMemChunk) (m : List (ℕ × FreeMemChunk))
    → AreChunks len m
    → IsChunk len new
    → AreChunks len (insert idx new m)
AreChunks-insert len idx new m h v j info e = elim (Bool-cases (idx == j)) [
  | inl same ↦
      let at_j = get_at idx j new m ((==_iff idx j).0 same) in
      let found : new ≡ info = cc in subst (IsChunk len) found v
  | inr other ↦ h j info (sym (get-insert idx j new m ∙ rw other) ∙ e)
]

abbrev pub view : ℕ → List (ℕ × FreeMemChunk) → ChunkedFreeMemView
view len chunks = record { chunks = chunks; chunk_len = len }

cell-view :
    (len : ℕ) (m : List (ℕ × FreeMemChunk)) (x : ℕ)
    → cell (view len m) x ≡ chunk_cell (get (x / len) m) (x % len)
unfolding cell
cell-view len m x = refl

-- The map before and after a round at `idx`, which puts the chunk `info` there.
module _ (len idx off : ℕ) (part : List ℕ) (m : List (ℕ × FreeMemChunk)) (info : FreeMemChunk)
    (positive : 0 < len) where
  unfoldable pub inserted : List (ℕ × FreeMemChunk)
  inserted = insert idx info m

  pub cell-inserted :
      (i : ℕ)
      → off + i < len
      → cell (view len inserted) (idx * len + off + i) ≡ chunk_cell (some info) (off + i)
  unfolding inserted
  cell-inserted i h =
      cell-eq-cell_at (view len (insert idx info m)) (idx * len + off + i) idx (off + i) h
        (omega arith)
      ∙ ap (λ o. chunk_cell o (off + i)) (get_self idx info m)

  pub cell-inserted_kept :
      ((o b : ℕ)
        → (o < off) ⊎ (off + length part ≤ o)
        → chunk_cell (get idx m) o ≡ some b
        → chunk_cell (some info) o ≡ some b)
      → (x b : ℕ) → (x < idx * len + off) ⊎ (idx * len + off + length part ≤ x)
      → cell (view len m) x ≡ some b
      → cell (view len inserted) x ≡ some b
  unfolding inserted
  cell-inserted_kept kept x b h e = elim (Bool-cases (idx == x / len)) [
    | inl same ↦
        let q = (==_iff idx (x / len)).0 same in
        let at_len = ap (λ (t : ℕ). t * len) q in
        let whole = div-add-mod' x len in
        cell-view len (insert idx info m) x
        ∙ ap (λ o. chunk_cell o (x % len)) (get_at idx (x / len) info m q)
        ∙ kept (x % len) b
            (elim h [
              | inl p ↦ inl (omega (arith, at_len, whole))
              | inr p ↦ inr (omega (arith, at_len, whole))
            ])
            (ap (λ k. chunk_cell (get k m) (x % len)) q ∙ sym (cell-view len m x) ∙ e)
    | inr other ↦
        cell-view len (insert idx info m) x
        ∙ ap (λ o. chunk_cell o (x % len)) (get-insert idx (x / len) info m ∙ rw other)
        ∙ sym (cell-view len m x)
        ∙ e
  ]
