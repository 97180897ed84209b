-- ===== src/Client/BlockData/Attributes.antt =====
-- The attributes in the footer of a block (crates/snap7-client/src/types.rs).
use rs_snap.Prelude.{
  ℕ, zero, suc, replicate, ◌+◌, ◌-◌, ◌≤◌, ◌≡◌, refl, sym, ap, ◌∙◌, arith, min, Option, none, some,
  [], ◌∷◌, ◌++◌, map, length, take, drop, ltb, if◌then◌else◌, length-append, length-take,
  length-drop, length-map, take-append, drop-append, append_assoc,
}
use rs_snap.Wire.{Bytes}
use rs_snap.Client.BlockData.{
  BlockData, BlockAttributes, set_attributes, set_footer, write_padded, update_range, write_field,
  write_version,
}

-- What a field of a footer holds after an attribute has been set: the start of the text with spaces
-- behind it, as long as the field.
pub written : Option Bytes → Bytes → Bytes
written none dst = dst
written (some s) dst = take (length dst) (s ++ replicate (length dst) 0x20)

spaces :
    (dst : Bytes) (n : ℕ)
    → length dst ≤ n
    → map {B = ℕ} (λ b. 0x20) dst ≡ take (length dst) (replicate n 0x20)
spaces [] n h = refl
spaces (x ∷ dst) zero h = absurd (omega arith)
spaces (x ∷ dst) (suc n) h = ap (λ t. 0x20 ∷ t) (spaces dst n (omega arith))

min_zero : (a : ℕ) → min a 0 ≡ 0
min_zero a = omega arith

zero_min : (a : ℕ) → min 0 a ≡ 0
zero_min a = omega arith

min-suc : (a b : ℕ) → min (suc a) (suc b) ≡ suc (min a b)
min-suc a b = omega arith

padded :
    (dst s : Bytes) (n : ℕ)
    → length dst ≤ n
    → take (min (length s) (length dst)) s
        ++ map {B = ℕ} (λ b. 0x20) (drop (min (length s) (length dst)) dst)
      ≡ take (length dst) (s ++ replicate n 0x20)
padded [] [] n h = refl
padded [] (c ∷ s) n h = rw (min_zero (suc (length s))) refl
padded (x ∷ dst) [] n h = rw (zero_min (suc (length dst))) (spaces (x ∷ dst) n h)
padded (x ∷ dst) (c ∷ s) n h =
    rw (min-suc (length s) (length dst)) (ap (λ t. c ∷ t) (padded dst s n (omega arith)))

write_padded-written : (dst s : Bytes) → write_padded dst s ≡ written (some s) dst
unfolding write_padded written
write_padded-written dst s = padded dst s (length dst) (omega arith)

pub version_or : Option ℕ → ℕ → ℕ
version_or none v = v
version_or (some w) v = w

update_range-append :
    (lo hi : ℕ) (f : Bytes → Bytes) (pre mid post : Bytes)
    → length pre ≡ lo
    → lo + length mid ≡ hi
    → update_range lo hi f (pre ++ (mid ++ post)) ≡ pre ++ (f mid ++ post)
update_range-append lo hi f pre mid post e e' = rw (front, upto, behind, middle) refl
  where
    both : hi ≡ length (pre ++ mid)
    both = omega (arith, length-append pre mid)

    front : take lo (pre ++ (mid ++ post)) ≡ pre
    front = rw (sym e) (take-append pre (mid ++ post))

    upto : take hi (pre ++ (mid ++ post)) ≡ pre ++ mid
    upto = rw (both, sym (append_assoc pre mid post)) (take-append (pre ++ mid) post)

    behind : drop hi (pre ++ (mid ++ post)) ≡ post
    behind = rw (both, sym (append_assoc pre mid post)) (drop-append (pre ++ mid) post)

    middle : drop lo (pre ++ mid) ≡ mid
    middle = rw (sym e) (drop-append pre mid)

write_field-append :
    (lo hi : ℕ) (o : Option Bytes) (pre mid post : Bytes)
    → length pre ≡ lo
    → lo + length mid ≡ hi
    → write_field lo hi o (pre ++ (mid ++ post)) ≡ pre ++ (written o mid ++ post)
unfolding written
write_field-append lo hi none pre mid post e e' = refl
write_field-append lo hi (some s) pre mid post e e' =
    update_range-append lo hi (λ dst. write_padded dst s) pre mid post e e'
    ∙ ap (λ x. pre ++ (x ++ post)) (write_padded-written mid s)

length-write_padded : (dst s : Bytes) → length (write_padded dst s) ≡ length dst
unfolding write_padded
length-write_padded dst s =
    let n = min (length s) (length dst) in
    omega (
      arith,
      length-append (take n s) (map (λ b. 0x20) (drop n dst)),
      length-take n s,
      length-map {B = ℕ} (λ b. 0x20) (drop n dst),
      length-drop n dst,
    )

length-written : (o : Option Bytes) (dst : Bytes) → length (written o dst) ≡ length dst
unfolding written
length-written none dst = refl
length-written (some s) dst =
    ap length (sym (write_padded-written dst s)) ∙ length-write_padded dst s

-- The parts of a footer, with their sizes.
pub record Footer (reserved author family name behind : Bytes) : Type 0 where
  pub reserved_size : length reserved ≡ 8
  pub author_size : length author ≡ 8
  pub family_size : length family ≡ 8
  pub name_size : length name ≡ 8
  pub behind_size : length behind ≡ 15

abbrev pub joined : (reserved author family name : Bytes) → ℕ → Bytes → Bytes
joined reserved author family name version behind =
    reserved ++ (author ++ (family ++ (name ++ (version ∷ behind))))

assoc_three : (a b c rest : Bytes) → a ++ (b ++ (c ++ rest)) ≡ ((a ++ b) ++ c) ++ rest
assoc_three a b c rest = sym (append_assoc a b (c ++ rest)) ∙ sym (append_assoc (a ++ b) c rest)

assoc_four :
    (a b c d rest : Bytes) → a ++ (b ++ (c ++ (d ++ rest))) ≡ (((a ++ b) ++ c) ++ d) ++ rest
assoc_four a b c d rest = assoc_three a b c (d ++ rest) ∙ sym (append_assoc ((a ++ b) ++ c) d rest)

-- Each attribute, behind the parts in front of it.
write_family :
    (o : Option Bytes) (reserved author family rest : Bytes)
    → length reserved ≡ 8
    → length author ≡ 8
    → length family ≡ 8
    → write_field 16 24 o (reserved ++ (author ++ (family ++ rest)))
      ≡ reserved ++ (author ++ (written o family ++ rest))
write_family o reserved author family rest er ea ef =
    ap (λ x. write_field 16 24 o x) (sym (append_assoc reserved author (family ++ rest)))
    ∙ write_field-append 16 24 o (reserved ++ author) family rest
        (omega (arith, length-append reserved author)) (omega arith)
    ∙ append_assoc reserved author (written o family ++ rest)

write_name :
    (o : Option Bytes) (reserved author family name rest : Bytes)
    → length reserved ≡ 8
    → length author ≡ 8
    → length family ≡ 8
    → length name ≡ 8
    → write_field 24 32 o (reserved ++ (author ++ (family ++ (name ++ rest))))
      ≡ reserved ++ (author ++ (family ++ (written o name ++ rest)))
write_name o reserved author family name rest er ea ef en =
    ap (λ x. write_field 24 32 o x) (assoc_three reserved author family (name ++ rest))
    ∙ write_field-append 24 32 o ((reserved ++ author) ++ family) name rest
        (omega (arith, length-append reserved author, length-append (reserved ++ author) family))
        (omega arith)
    ∙ sym (assoc_three reserved author family (written o name ++ rest))

write_version-joined :
    (o : Option ℕ) (reserved author family name : Bytes) (version : ℕ) (behind : Bytes)
    → length reserved ≡ 8
    → length author ≡ 8
    → length family ≡ 8
    → length name ≡ 8
    → write_version o (joined reserved author family name version behind)
      ≡ joined reserved author family name (version_or o version) behind
unfolding version_or
write_version-joined none reserved author family name version behind er ea ef en = refl
write_version-joined (some v) reserved author family name version behind er ea ef en =
    ap (λ x. update_range 32 33 (λ dst. v ∷ []) x)
      (assoc_four reserved author family name (version ∷ behind))
    ∙ update_range-append 32 33 (λ dst. v ∷ []) (((reserved ++ author) ++ family) ++ name)
        (version ∷ []) behind
        (omega (
          arith,
          length-append reserved author,
          length-append (reserved ++ author) family,
          length-append ((reserved ++ author) ++ family) name,
        ))
        (omega arith)
    ∙ sym (assoc_four reserved author family name (v ∷ behind))

set_footer-joined :
    (attrs : BlockAttributes) (reserved author family name behind : Bytes) (version : ℕ)
    → Footer reserved author family name behind
    → set_footer attrs (joined reserved author family name version behind)
      ≡ joined reserved
          (written attrs.author author)
          (written attrs.family family)
          (written attrs.name name)
          (version_or attrs.version version)
          behind
set_footer-joined attrs reserved author family name behind version parts =
    rw
      (
        write_field-append 8 16 attrs.author reserved author
            (family ++ (name ++ (version ∷ behind))) parts.reserved_size
            (omega (arith, parts.author_size)),
        write_family attrs.family reserved (written attrs.author author) family
            (name ++ (version ∷ behind)) parts.reserved_size
            (length-written attrs.author author ∙ parts.author_size) parts.family_size,
        write_name attrs.name reserved (written attrs.author author) (written attrs.family family)
            name (version ∷ behind) parts.reserved_size
            (length-written attrs.author author ∙ parts.author_size)
            (length-written attrs.family family ∙ parts.family_size) parts.name_size,
      )
      (write_version-joined attrs.version reserved (written attrs.author author)
        (written attrs.family family) (written attrs.name name) version behind parts.reserved_size
        (length-written attrs.author author ∙ parts.author_size)
        (length-written attrs.family family ∙ parts.family_size)
        (length-written attrs.name name ∙ parts.name_size))

length-joined :
    (reserved author family name behind : Bytes) (version : ℕ)
    → Footer reserved author family name behind
    → length (joined reserved author family name version behind) ≡ 48
length-joined reserved author family name behind version parts = omega (
  arith,
  parts.reserved_size,
  parts.author_size,
  parts.family_size,
  parts.name_size,
  parts.behind_size,
  length-append reserved (author ++ (family ++ (name ++ (version ∷ behind)))),
  length-append author (family ++ (name ++ (version ∷ behind))),
  length-append family (name ++ (version ∷ behind)),
  length-append name (version ∷ behind),
)

sized : (front footer : Bytes) → length footer ≡ 48 → length (front ++ footer) - 48 ≡ length front
sized front footer e = omega (arith, length-append front footer)

if_long : {A : Type 0} (n : ℕ) (x y : A) → 48 ≤ n → (if ltb n 48 then x else y) ≡ y
if_long n x y h = ground arith

-- Of a payload that ends with a footer, `set_attributes` replaces the fields of the attributes that are given,
-- each padded with spaces or cut off to its size, and nothing else.
pub set_attributes-joined :
    (attrs : BlockAttributes) (b : BlockData) (front reserved author family name behind : Bytes)
    (version : ℕ)
    → Footer reserved author family name behind
    → b.payload ≡ front ++ joined reserved author family name version behind
    → (set_attributes attrs b).payload
      ≡ front
        ++ joined reserved
            (written attrs.author author)
            (written attrs.family family)
            (written attrs.name name)
            (version_or attrs.version version)
            behind
unfolding set_attributes
set_attributes-joined attrs b front reserved author family name behind version parts e =
    let footer = joined reserved author family name version behind in
    let size = length-joined reserved author family name behind version parts in
    rw (e, sized front footer size, take-append front footer, drop-append front footer)
      (if_long (length (front ++ footer)) _ _ (omega (arith, size, length-append front footer))
        ∙ ap (λ x. front ++ x)
            (set_footer-joined attrs reserved author family name behind version parts))
