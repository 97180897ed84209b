-- ===== src/Client/Batch/Laws.antt =====
-- The batches of crates/snap7-client/src/client.rs against the items and the limits.
use rs_snap.Prelude.{
  ℕ, zero, suc, ◌+◌, ◌≤◌, ◌≡◌, refl, ◌∙◌, ap, arith, ◌⊎◌, inl, inr, Bool-cases, Bool, false, ◌&&◌,
  not, List, [], ◌∷◌, ◌++◌, length, ltb, All, length-append,
}
use rs_snap.Client.Batch.{
  MultiReadItem, MultiWriteItem, cut, batches, max_payload, add_read, over_read, read_batches,
  add_write, over_write, write_batches,
}

abbrev pub concat : {A : Type 0} → List (List A) → List A
concat [] = []
concat (xs ∷ xss) = xs ++ concat xss

-- The tally of a batch.
abbrev pub tally : {S A : Type 0} → (S → A → S) → S → List A → S
tally add used [] = used
tally add used (item ∷ items) = tally add (add used item) items

module _ {S A : Type 0} (over : S → A → Bool) (add : S → A → S) where
  cut-append :
      (count : ℕ) (used : S) (items : List A)
      → (cut over add count used items).0 ++ (cut over add count used items).1 ≡ items
  unfolding cut
  cut-append count used [] = refl
  cut-append count used (item ∷ items) =
      ground (arith, cut-append (suc count) (add used item) items)

  cut-length :
      (count : ℕ) (used : S) (items : List A)
      → count ≤ 20
      → count + length (cut over add count used items).0 ≤ 20
  unfolding cut
  cut-length count used [] h = omega arith
  cut-length count used (item ∷ items) h =
      ground (arith, cut-length (suc count) (add used item) items)

  -- What an item that was not over keeps.
  module _ (P : S → Type 0)
      (kept : (used : S) (item : A) → over used item ≡ false → P (add used item)) where
    cut-within :
        (count : ℕ) (used : S) (items : List A)
        → ((cut over add (suc count) used items).0 ≡ [])
          ⊎ P (tally add used (cut over add (suc count) used items).0)
    unfolding cut
    cut-within count used [] = inl refl
    cut-within count used (item ∷ items) =
        elim (Bool-cases (ltb (suc count) 20 && not (ltb 0 (suc count) && over used item))) [
          | inl taken ↦
              let within : over used item ≡ false = ground arith in
              rw taken (
                inr (elim (cut-within (suc count) (add used item) items) [
                  | inl e ↦ rw e (kept used item within)
                  | inr p ↦ p
                ]))
          | inr left ↦ rw left (inl refl)
        ]

    -- A batch: at least one item, at most 20, and more than one only within the limit.
    abbrev pub IsBatch : S → List A → Type 0
    IsBatch start b = (1 ≤ length b) × (length b ≤ 20) × ((length b ≡ 1) ⊎ P (tally add start b))

    cut-IsBatch :
        (start : S) (item : A) (items : List A)
        → IsBatch start (cut over add 0 start (item ∷ items)).0
    unfolding cut
    cut-IsBatch start item items = (
      omega arith,
      omega (arith, cut-length 1 (add start item) items),
      elim (cut-within 0 (add start item) items) [ inl e ↦ rw e (inl refl) | inr p ↦ inr p ],
    )

    pub batches-IsBatch :
        (fuel : ℕ) (start : S) (items : List A)
        → All (IsBatch start) (batches over add fuel start items)
    unfolding batches
    batches-IsBatch fuel start [] = tt
    batches-IsBatch zero start (item ∷ items) = tt
    batches-IsBatch (suc fuel) start (item ∷ items) = (
      cut-IsBatch start item items,
      batches-IsBatch fuel start (cut over add 0 start (item ∷ items)).1,
    )

  cut-shrinks :
      (start : S) (item : A) (items : List A)
      → length (cut over add 0 start (item ∷ items)).1 ≤ length items
  unfolding cut
  cut-shrinks start item items = omega (
    arith,
    ap length (cut-append 1 (add start item) items),
    length-append (cut over add 1 (add start item) items).0
        (cut over add 1 (add start item) items).1,
  )

  pub concat-batches :
      (fuel : ℕ) (start : S) (items : List A)
      → length items ≤ fuel
      → concat (batches over add fuel start items) ≡ items
  unfolding batches
  concat-batches fuel start [] h = refl
  concat-batches zero start (item ∷ items) h = elim h [ ]
  concat-batches (suc fuel) start (item ∷ items) h =
      ap (λ (l : List A). (cut over add 0 start (item ∷ items)).0 ++ l)
        (concat-batches fuel start (cut over add 0 start (item ∷ items)).1
          (omega (arith, cut-shrinks start item items)))
      ∙ cut-append 0 start (item ∷ items)

-- The addresses and the response data of a batch fit the PDU.
abbrev pub ReadFits : ℕ → ℕ × ℕ → Type 0
ReadFits pdu_size used = (used.0 ≤ max_payload pdu_size) × (used.1 ≤ max_payload pdu_size)

-- `read_multi_vars` asks for every item, once and in order, in batches of 1 to 20; the addresses and
-- the response data of a batch of more than one item are within the PDU size less 12.
pub read_batches-IsBatch :
    (pdu_size : ℕ) (items : List MultiReadItem)
    → (concat (read_batches pdu_size items) ≡ items)
      × All
          (λ b.
            (1 ≤ length b)
            × (length b ≤ 20)
            × ((length b ≡ 1) ⊎ ReadFits pdu_size (tally add_read (0, 0) b)))
          (read_batches pdu_size items)
unfolding read_batches
read_batches-IsBatch pdu_size items = (
  concat-batches (over_read pdu_size) add_read (length items) (0, 0) items (omega arith),
  batches-IsBatch (over_read pdu_size) add_read (ReadFits pdu_size) (λ used item h. ground arith)
      (length items) (0, 0) items,
)

-- `write_multi_vars` writes every item, once and in order, in batches of 1 to 20; the addresses and
-- the data of a batch of more than one item are together within the PDU size less 12.
write_batches-IsBatch :
    (pdu_size : ℕ) (items : List MultiWriteItem)
    → (concat (write_batches pdu_size items) ≡ items)
      × All
          (λ b.
            (1 ≤ length b)
            × (length b ≤ 20)
            × ((length b ≡ 1) ⊎ (tally add_write 0 b ≤ max_payload pdu_size)))
          (write_batches pdu_size items)
unfolding write_batches
write_batches-IsBatch pdu_size items = (
  concat-batches (over_write pdu_size) add_write (length items) 0 items (omega arith),
  batches-IsBatch (over_write pdu_size) add_write (λ used. used ≤ max_payload pdu_size)
      (λ used item h. ground arith) (length items) 0 items,
)
