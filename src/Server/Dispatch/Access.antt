-- ===== src/Server/Dispatch/Access.antt =====
-- What a request may change in the store of crates/snap7-server/src/dispatch.rs.
use rs_snap.Prelude.{
  ℕ, ◌≡◌, ◌≢◌, refl, ◌∙◌, ap, arith, Bool-cases, either, Bool, true, inl, inr, List, [], ◌∷◌,
  length, ◌==◌, ◌||◌, leb, bit_and,
}
use rs_snap.Wire.{Bytes, Result, ok, err, panic}
use rs_snap.S7.Codes.{PduType, area_code}
use rs_snap.S7.Header.{S7Header, decode}
use rs_snap.S7.Address.{AddressItem}
use rs_snap.S7.ReadVar.{ReadVarRequest, func_read_var}
use rs_snap.S7.WriteVar.{WriteItem, WriteVarRequest, func_write_var}
use rs_snap.Server.Memory.{Memory}
use rs_snap.Server.Replies.{szl_id_of, szl_params}
use rs_snap.Server.Reads.{and_then, slice}
use rs_snap.Server.Store.{Store, Callbacks, read_area, write_area, set_clock, is_area_locked}
use rs_snap.Server.Store.Access.{IsQuiet, read_area_quiet, write_area_quiet}
use rs_snap.Server.Memory.Laws as MemoryLaws
use rs_snap.Server.Dispatch.{
  Handled, byte_at, read_items, write_items, read_decoded, write_decoded, handle_read_var,
  handle_write_var, answer, handle_job, is_control, handle_clock_user_data, handle_user_data,
  dispatch, respond, respond_decoded, set_clock_user_data, handle_szl_user_data, is_user_request,
}

-- The same bytes and the same locks.
abbrev pub SameMemory : Store → Store → Type 0
SameMemory s s' = (s'.memory ≡ s.memory) × (s'.locked_areas ≡ s.locked_areas)

-- The same bytes in one area, and the same locks.
abbrev pub SameArea : ℕ → Store → Store → Type 0
SameArea area s s' =
    ((d o : ℕ) → s'.memory area d o ≡ s.memory area d o) × (s'.locked_areas ≡ s.locked_areas)

-- The store that an outcome leaves, if it leaves one.
abbrev pub After : (Store → Type 0) → {A : Type 0} → Result (A × Store) → Type 0
After P (ok (a, after)) = P after
After P (err e) = Unit {0}
After P panic = Unit {0}

-- A property of stores that reads, writes and a new clock keep is kept by every request.
module _ (calls : Callbacks) (P : Store → Type 0)
    (kept_by_read : (area db start count : ℕ) (s : Store)
      → P s
      → P (read_area calls area db start count s).1)
    (kept_by_clock : (bytes : Bytes) (s : Store) → P s → P (set_clock bytes s)) where
  read_items-keeps : (items : List AddressItem) (s : Store) → P s → P (read_items calls items s).1
  read_items-keeps [] s p = p
  read_items-keeps (item ∷ items) s p =
      read_items-keeps items _
        (kept_by_read (area_code item.area) item.db_number item.start item.length s p)

  read_decoded-keeps :
      (d : Result (ReadVarRequest × Bytes)) (s : Store) → P s → After P (read_decoded calls d s)
  read_decoded-keeps (ok (req, rest)) s p = read_items-keeps req.items s p
  read_decoded-keeps (err e) s p = tt
  read_decoded-keeps panic s p = tt

  answer-keeps :
      (r func : ℕ) (h : Handled) (s : Store) → P s → After P h → After P (answer calls r func h s)
  answer-keeps r func (ok (reply, after)) s p q = q
  answer-keeps r func (err e) s p q = p
  answer-keeps r func panic s p q = tt

  handle_job-keeps :
      (r func : ℕ) (payload : Bytes) (s : Store)
      → P s
      → (func ≡ func_write_var → After P (handle_write_var calls payload s))
      → After P (handle_job calls r func payload s)
  unfolding handle_job handle_read_var
  handle_job-keeps r func payload s p w = elim (Bool-cases (func == func_write_var)) [
    | inl write ↦
        let e : func ≡ func_write_var = ground arith in
        rw e (answer-keeps r func_write_var _ s p (w e))
    | inr other ↦
        either (λ (x : Result (Bytes × Store)). After P x) (func == func_read_var)
          (answer-keeps r func_read_var _ s p (read_decoded-keeps _ s p))
          (rw other (
            either (λ (x : Result (Bytes × Store)). After P x) (is_control calls func) p
              (either (λ (x : Result (Bytes × Store)). After P x) (func == 0x11 || func == 0x12) p
                p)))
  ]

  and_then-keeps :
      {A : Type 0} (x : Result A) (f : A → Result (Bytes × Store))
      → ((a : A) → After P (f a))
      → After P (and_then x f)
  and_then-keeps (ok a) f h = h a
  and_then-keeps (err e) f h = tt
  and_then-keeps panic f h = tt

  set_clock_user_data-keeps :
      (r : ℕ) (payload : Bytes) (s : Store) → P s → After P (set_clock_user_data calls r payload s)
  unfolding set_clock_user_data
  set_clock_user_data-keeps r payload s p =
      either (λ (x : Result (Bytes × Store)). After P x) (leb 20 (length payload))
        (and_then-keeps (slice payload 12 20) _ (λ dt_bytes. kept_by_clock dt_bytes s p)) p

  handle_clock_user_data-keeps :
      (r : ℕ) (payload : Bytes) (s : Store)
      → P s
      → After P (handle_clock_user_data calls r payload s)
  unfolding handle_clock_user_data
  handle_clock_user_data-keeps r payload s p = and_then-keeps (byte_at calls payload 6) _ λ subfn.
      either (λ (x : Result (Bytes × Store)). After P x) (subfn == 0x02)
        (set_clock_user_data-keeps r payload s p) p

  handle_szl_user_data-keeps :
      (r : ℕ) (payload : Bytes) (s : Store) → P s → After P (handle_szl_user_data calls r payload s)
  unfolding handle_szl_user_data
  handle_szl_user_data-keeps r payload s p =
      and_then-keeps (szl_id_of payload) _
        λ szl_id. and_then-keeps (szl_params payload) _ λ params. p

  handle_user_data-keeps :
      (r : ℕ) (payload : Bytes) (s : Store) → P s → After P (handle_user_data calls r payload s)
  unfolding handle_user_data
  handle_user_data-keeps r payload s p = and_then-keeps (byte_at calls payload 5) _ λ tg.
      either (λ (x : Result (Bytes × Store)). After P x) (bit_and tg 0x0f == 0x07)
        (handle_clock_user_data-keeps r payload s p) (handle_szl_user_data-keeps r payload s p)

  dispatch-keeps :
      (t : PduType) (r func : ℕ) (payload : Bytes) (s : Store)
      → P s
      → (t ≡ PduType.job → func ≡ func_write_var → After P (handle_write_var calls payload s))
      → After P (dispatch calls t r func payload s)
  unfolding dispatch
  dispatch-keeps PduType.job r func payload s p w = handle_job-keeps r func payload s p (w refl)
  dispatch-keeps PduType.user_data r func payload s p w =
      and_then-keeps (is_user_request calls payload) _ λ is_request.
        either (λ (x : Result (Bytes × Store)). After P x) is_request
          (handle_user_data-keeps r payload s p) p
  dispatch-keeps _ r func payload s p w = p

  respond_decoded-keeps :
      (d : Result (S7Header × Bytes)) (s : Store)
      → P s
      → ((h : S7Header) (body : Bytes)
          → d ≡ ok (h, func_write_var ∷ body)
          → h.pdu_type ≡ PduType.job
          → After P (handle_write_var calls (func_write_var ∷ body) s))
      → After P (respond_decoded calls d s)
  respond_decoded-keeps (ok (h, [])) s p w = p
  respond_decoded-keeps (ok (h, func ∷ rest)) s p w =
      dispatch-keeps h.pdu_type h.pdu_ref func (func ∷ rest) s p
        (λ t f. let e : (func ∷ rest ≡ func_write_var ∷ rest) = rw f in rw e (w h rest (rw f) t))
  respond_decoded-keeps (err e) s p w = p
  respond_decoded-keeps panic s p w = tt

  pub respond-keeps_unwritten :
      (payload : Bytes) (s : Store)
      → P s
      → ((h : S7Header) (body : Bytes)
          → decode payload ≡ ok (h, func_write_var ∷ body)
          → h.pdu_type ≡ PduType.job
          → After P (handle_write_var calls (func_write_var ∷ body) s))
      → After P (respond calls payload s)
  unfolding respond
  respond-keeps_unwritten payload s = respond_decoded-keeps (decode payload) s

  -- The same where a write keeps it too.
  module _
      (kept_by_write : (area db start : ℕ) (bytes : Bytes) (s : Store)
        → P s
        → P (write_area calls area db start bytes s)) where
    write_items-keeps : (items : List WriteItem) (s : Store) → P s → P (write_items calls items s)
    write_items-keeps [] s p = p
    write_items-keeps (item ∷ items) s p = write_items-keeps items _ (
        kept_by_write (area_code item.address.area) item.address.db_number item.address.start
          item.content s p)

    write_decoded-keeps :
        (d : Result (WriteVarRequest × Bytes)) (s : Store) → P s → After P (write_decoded calls d s)
    write_decoded-keeps (ok (req, rest)) s p = write_items-keeps req.items s p
    write_decoded-keeps (err e) s p = tt
    write_decoded-keeps panic s p = tt

    pub respond-keeps : (payload : Bytes) (s : Store) → P s → After P (respond calls payload s)
    unfolding handle_write_var
    respond-keeps payload s p =
        respond-keeps_unwritten payload s p (λ h body d t. write_decoded-keeps _ s p)

module _ (calls : Callbacks) (quiet : IsQuiet calls) where
  write_area-SameArea :
      (area area' db start : ℕ) (bytes : Bytes) (s : Store)
      → s.locked_areas area ≡ true
      → SameArea area s (write_area calls area' db start bytes s)
  write_area-SameArea area area' db start bytes s h =
      let q = write_area_quiet calls quiet area' db start bytes s in
      (
        (λ d o. ap (λ (m : Memory). m area d o) q.0 ∙ elim (Bool-cases (s.locked_areas area')) [
          | inl y ↦ rw y
          | inr n ↦
              rw n (
                MemoryLaws.write_loop-other_area s.memory area' db start 0 bytes area d o (λ e. cc))
        ]),
        q.1,
      )

  -- Of the requests, only a write changes a byte of any area, and none changes the locks; the
  -- callbacks are such that they change neither.
  respond-SameMemory :
      (payload : Bytes) (s : Store)
      → ((h : S7Header) (body : Bytes)
          → decode payload ≡ ok (h, func_write_var ∷ body)
          → h.pdu_type ≢ PduType.job)
      → After (SameMemory s) (respond calls payload s)
  unfolding set_clock
  respond-SameMemory payload s no_write =
      respond-keeps_unwritten calls (SameMemory s)
        (λ area db start count s' p.
          let q = read_area_quiet calls quiet area db start count s' in (q.0 ∙ p.0, q.1 ∙ p.1))
        (λ bytes s' p. p) payload s (refl, refl) (λ h body d t. absurd (no_write h body d t))

  -- No request changes a byte of a locked area, and it stays locked; the callbacks are such that
  -- they change neither.
  pub respond-SameArea :
      (area : ℕ) (payload : Bytes) (s : Store)
      → is_area_locked area s ≡ true
      → After (SameArea area s) (respond calls payload s)
  unfolding is_area_locked set_clock
  respond-SameArea area payload s locked =
      respond-keeps calls (SameArea area s)
        (λ area' db start count s' p.
          let q = read_area_quiet calls quiet area' db start count s' in
          ((λ d o. ap (λ (m : Memory). m area d o) q.0 ∙ p.0 d o), q.1 ∙ p.1))
        (λ bytes s' p. p)
        (λ area' db start bytes s' p.
          let w =
            write_area-SameArea area area' db start bytes s'
              (ap (λ (l : ℕ → Bool). l area) p.1 ∙ locked) in
          ((λ d o. w.0 d o ∙ p.0 d o), w.1 ∙ p.1))
        payload s ((λ d o. refl), refl)
