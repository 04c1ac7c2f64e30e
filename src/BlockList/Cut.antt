-- ===== src/BlockList/Cut.antt =====
-- What `Blocks` of lib/scanner/blocks.go says of the data.
use vidsync_app.Base.{
  ℕ, zero, suc, ◌+◌, ◌≤◌, ◌<◌, ◌≡◌, ◌≢◌, ◌⊎◌, inl, inr, refl, sym, subst, ap, ap₂, ◌∙◌, false, List,
  [], ◌∷◌, some, length, take, drop, length-drop, ℤ, pos, ◌+ℤ◌, arith, int_laws,
}
use vidsync_app.DeviceId.Text.{Bytes}
use vidsync_app.FileInfo.{BlockInfo}
use vidsync_app.BlockList.{
  Reader, limit, chunks, block_infos, or_empty, blocks_of, blocks, sha256_of_nothing, offsets_from,
  populate_offsets,
}

module _ (hash : Bytes → Bytes) (size : ℕ) where
  -- The blocks cut the data from an offset on into parts of the block size, of which the last one may
  -- be shorter, and none is empty.
  unfoldable pub Cuts : ℕ → Bytes → List BlockInfo → Type 0
  Cuts offset content [] = content ≡ []
  Cuts offset content (b ∷ bs) =
      (b ≡ record {
        hash = hash (take size content);
        offset = pos offset;
        size = pos (length (take size content));
      })
      × (0 < length (take size content))
      × ((length (take size content) ≡ size) ⊎ (bs ≡ []))
      × Cuts (offset + length (take size content)) (drop size content) bs

cut_end : (k : ℕ) (xs : Bytes) → (length (take k xs) ≡ k) ⊎ (drop k xs ≡ [])
cut_end zero xs = inl refl
cut_end (suc k) [] = inr refl
cut_end (suc k) (x ∷ xs) = elim (cut_end k xs) [ inl h ↦ inl (ap suc h) | inr h ↦ inr h ]

module _ (hash : Bytes → Bytes) (n : ℕ) where
  block_infos-none : (fuel offset : ℕ) → block_infos hash offset (chunks fuel (suc n) []) ≡ []
  unfolding chunks block_infos
  block_infos-none zero offset = refl
  block_infos-none (suc fuel) offset = refl

  chunks-Cuts :
      (fuel offset : ℕ) (content : Bytes)
      → length content ≤ fuel
      → Cuts hash (suc n) offset content (block_infos hash offset (chunks fuel (suc n) content))
  unfolding Cuts chunks block_infos
  chunks-Cuts zero offset [] h = refl
  chunks-Cuts zero offset (b ∷ bs) h = absurd (omega arith)
  chunks-Cuts (suc fuel) offset [] h = refl
  chunks-Cuts (suc fuel) offset (b ∷ bs) h =
      let part = take (suc n) (b ∷ bs) in
      (
        refl,
        omega arith,
        elim (cut_end (suc n) (b ∷ bs)) [
          | inl e ↦ inl e
          | inr e ↦ inr (
              ap (λ k. block_infos hash (offset + length part) (chunks fuel (suc n) k)) e
              ∙ block_infos-none fuel (offset + length part))
        ],
        chunks-Cuts fuel (offset + length part) (drop (suc n) (b ∷ bs))
            (omega (arith, h, length-drop (suc n) (b ∷ bs))),
      )

-- The list of a file's blocks: the one block of an empty file, or the cut.
unfoldable pub Listing : (Bytes → Bytes) → ℕ → Bytes → List BlockInfo → Type 0
Listing hash size content bs =
    ((content ≡ []) × (bs ≡ record { hash = sha256_of_nothing; offset = pos 0; size = pos 0 } ∷ []))
    ⊎ ((content ≢ []) × Cuts hash size 0 content bs)

add_pos : (a b : ℕ) → pos a +ℤ pos b ≡ pos (a + b)
add_pos a b = omega int_laws

offsets_from-Cuts :
    (hash : Bytes → Bytes) (size offset : ℕ) (content : Bytes) (bs : List BlockInfo)
    → Cuts hash size offset content bs
    → offsets_from (pos offset) bs ≡ bs
unfolding Cuts offsets_from
offsets_from-Cuts hash size offset content [] c = refl
offsets_from-Cuts hash size offset content (b ∷ bs) c =
    ap₂ (λ x y. x ∷ y) (ap (λ k. record b { offset = k }) (sym (ap (λ x. x.offset) c.0)))
      (ap (λ k. offsets_from k bs)
          (ap (λ x. pos offset +ℤ x.size) c.0 ∙ add_pos offset (length (take size content)))
        ∙ offsets_from-Cuts hash size (offset + length (take size content)) (drop size content) bs
            c.3)

or_empty-some :
    (hash : Bytes → Bytes) (size : ℕ) (c : ℕ) (cs : Bytes) (bs : List BlockInfo)
    → Cuts hash size 0 (c ∷ cs) bs
    → or_empty hash bs ≡ bs
unfolding Cuts or_empty
or_empty-some hash size c cs [] h = absurd (ground arith)
or_empty-some hash size c cs (b ∷ bs) h = refl

pub blocks_of-Listing :
    (hash : Bytes → Bytes) (n : ℕ) (content : Bytes)
    → Listing hash (suc n) content (blocks_of hash (suc n) content)
unfolding Listing blocks_of chunks block_infos or_empty
blocks_of-Listing hash n [] = inl (refl, refl)
blocks_of-Listing hash n (c ∷ cs) =
    let w = chunks-Cuts hash n (length (c ∷ cs)) 0 (c ∷ cs) (omega arith) in
    inr (
      (λ e. absurd (ground arith)),
      subst (Cuts hash (suc n) 0 (c ∷ cs)) (sym (or_empty-some hash (suc n) c cs _ w)) w,
    )

Listing-offsets :
    (hash : Bytes → Bytes) (size : ℕ) (content : Bytes) (bs : List BlockInfo)
    → Listing hash size content bs
    → populate_offsets bs ≡ bs
unfolding Listing populate_offsets offsets_from
Listing-offsets hash size content bs (inl (e, q)) =
    subst (λ k. offsets_from (pos 0) k ≡ k) (sym q) refl
Listing-offsets hash size content bs (inr (e, c)) = offsets_from-Cuts hash size 0 content bs c

-- For a positive block size, when neither the context nor the reader fails, `Blocks` ends with a list
-- of blocks that cuts the data, up to the size hint where there is one, into consecutive parts of
-- the block size, each with its hash, its offset and its size, of which the last may be
-- shorter; of an empty file it gives the one block of size 0. `populateOffsets` leaves the offsets
-- of such a list as they are.
pub blocks-Listing :
    (hash : Bytes → Bytes) (n : ℕ) (sizehint : ℤ) (r : Reader)
    → (limit sizehint r).fails ≡ false
    → (bs : List BlockInfo) × (blocks hash false (suc n) sizehint r ≡ some bs)
      × Listing hash (suc n) (limit sizehint r).content bs
      × (populate_offsets bs ≡ bs)
unfolding blocks
blocks-Listing hash n sizehint r e =
    let bs = blocks_of hash (suc n) (limit sizehint r).content in
    let w = blocks_of-Listing hash n (limit sizehint r).content in
    (bs, rw (e, blocks) refl, w, Listing-offsets hash (suc n) (limit sizehint r).content bs w)
