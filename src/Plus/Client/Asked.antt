-- ===== src/Plus/Client/Asked.antt =====
-- What a peer finds in the requests of crates/snap7-client/src/plus_client.rs, and what the client returns.
use rs_snap.Prelude.{
  ℕ, zero, suc, ◌<◌, ◌^◌, map, take, leb, length-map, Bool-cases, inl, inr, bit_or, ◌*◌, ◌%◌, ◌≤◌,
  ◌≡◌, refl, sym, ap, arith, List, [], ◌∷◌, length, All, length-append,
}
use rs_snap.Wire.{Bytes, ok, put_all, IsU16, IsU32}
use rs_snap.Prelude.Bits.{or_bound}
use rs_snap.Plus.DataArea.{DataArea}
use rs_snap.Plus.DataArea
use rs_snap.Plus.MultiVar.{VarSpec, VarResult, put_spec, encode_get, get_payload}
use rs_snap.Plus.MultiVar.Laws.{read_payload, read_spec, SpecFits, encode_get_carries}
use rs_snap.Plus.Client.{PlusConnection, DbVarSpec, cut_all, lengths, get_request, spec_of, db_lid}

-- What a peer finds in a request: the numbers of the variables in order, behind the fields of a read with
-- this number and session.
pub record AsksFor (seqnum session_id : ℕ) (items : List VarSpec) (request : Bytes) : Type 0 where
  pub payload : Bytes
  pub fields :
      DataArea.decode request
      ≡ ok (
        record {
          opcode = 0x31;
          function_code = 0x054c;
          seqnum = seqnum;
          session_id = session_id;
          transport_flags = 0;
          payload = payload;
        },
        [],
      )
  pub variables : read_payload read_spec payload ≡ ok (items, [])

-- The first bytes of each value, as many as were asked for, or all where there are fewer.
pub prefixes : List VarResult → List DbVarSpec → List Bytes
prefixes (r ∷ results) (s ∷ ss) = take s.length r.value ∷ prefixes results ss
prefixes _ _ = []

take_all : (xs : Bytes) (n : ℕ) → length xs ≤ n → xs ≡ take n xs
take_all [] zero h = refl
take_all [] (suc n) h = refl
take_all (x ∷ xs) zero h = absurd (omega arith)
take_all (x ∷ xs) (suc n) h = ap (λ t. x ∷ t) (take_all xs n (omega arith))

pub cut_all-prefixes :
    (results : List VarResult) (ss : List DbVarSpec)
    → cut_all results (lengths ss) ≡ prefixes results ss
unfolding cut_all prefixes
cut_all-prefixes [] ss = refl
cut_all-prefixes (r ∷ results) [] = refl
cut_all-prefixes (r ∷ results) (s ∷ ss) = elim (Bool-cases (leb s.length (length r.value))) [
  | inl e ↦ rw e (ap (λ x. take s.length r.value ∷ x) (cut_all-prefixes results ss))
  | inr e ↦
      let short : length r.value ≤ s.length = ground arith in
      rw (e, sym (take_all r.value s.length short))
        (ap (λ x. r.value ∷ x) (cut_all-prefixes results ss))
]

db_lid-SpecFits : (db offset : ℕ) → SpecFits (db_lid db offset)
unfolding db_lid
db_lid-SpecFits db offset = (
  omega arith,
  or_bound 32 (bit_or 0x84000000 (db * 4096 % 2 ^ 32)) (offset % 4096)
      (or_bound 32 0x84000000 (db * 4096 % 2 ^ 32) (omega arith) (omega arith)) (omega arith),
)

specs-SpecFits : (specs : List DbVarSpec) → All SpecFits (map spec_of specs)
specs-SpecFits [] = tt
specs-SpecFits (s ∷ specs) = (db_lid-SpecFits s.db s.offset, specs-SpecFits specs)

length-put_specs : (items : List VarSpec) → length (put_all put_spec items) ≡ 8 * length items
unfolding put_all
length-put_specs [] = refl
length-put_specs (item ∷ items) =
    omega (arith, length-append (put_spec item) (put_all put_spec items), length-put_specs items)

pub length-get_request :
    (specs : List DbVarSpec) (conn : PlusConnection)
    → length specs < 256
    → length (get_request specs conn) ≤ 65523
unfolding encode_get get_payload DataArea.encode
length-get_request specs conn few =
    omega (arith, length-put_specs (map spec_of specs), length-map spec_of specs)

pub get_request-AsksFor :
    (specs : List DbVarSpec) (conn : PlusConnection)
    → IsU16 conn.seqnum
    → IsU32 conn.session_id
    → length specs < 256
    → AsksFor conn.seqnum conn.session_id (map spec_of specs) (get_request specs conn)
get_request-AsksFor specs conn hs hid few =
    let (fields, variables) =
      encode_get_carries
        (record { seqnum = conn.seqnum; session_id = conn.session_id; items = map spec_of specs })
        hs hid (specs-SpecFits specs) (omega (arith, length-map spec_of specs)) in
    record { payload = get_payload (map spec_of specs); fields = fields; variables = variables }
