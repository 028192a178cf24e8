-- ===== src/Graph/IdParser/RoundTrip.antt =====
-- What the parser reads from an id.
use native.Mathlib.Nat.{one-le-pow, mod-eq_of_lt}
use libvineyard.Base.{ℕ, ◌+◌, ◌-◌, ◌*◌, ◌^◌, ◌≤◌, ◌<◌, ◌≡◌, sym, subst, ◌∙◌, arith, bit_and}
use libvineyard.Base.Bits.{bit_and_fields, bit_and_mask, bit_and-zero}
use libvineyard.Graph.IdParser.{
  IdParser, num_to_bitwidth, init, generate_id, get_fid, get_label_id, get_offset, get_lid,
}
use libvineyard.Graph.IdParser.Widths.{num_to_bitwidth_lem}
use libvineyard.Graph.IdParser.Fields.{
  layout, fields, init-layout, generate_id-fields, lower_fields, two-pow-add, times_below, quotient,
  remainder,
}

upper_assoc : (a p q b c : ℕ) → a * (p * q) + (b * p + c) ≡ (a * q + b) * p + c
upper_assoc a p q b c = omega arith

module _ (k l f : ℕ) where
  get_fid-fields :
      (fid label offset : ℕ)
      → fid < 2 ^ 32
      → label < 2 ^ l
      → offset < 2 ^ k
      → get_fid (layout k l f) (fields k l f fid label offset) ≡ fid
  unfolding get_fid fields
  get_fid-fields fid label offset a b c =
      rw (quotient fid (2 ^ (k + l)) (label * 2 ^ k + offset) (lower_fields k l f label offset b c))
        (mod-eq_of_lt {n = fid} {m = 2 ^ 32} a)

  -- The fragment and the label side by side, over the offset.
  regrouped :
      (fid label offset : ℕ)
      → fields k l f fid label offset ≡ (fid * 2 ^ l + label) * 2 ^ k + offset
  unfolding fields
  regrouped fid label offset = rw (two-pow-add k l) (upper_assoc fid (2 ^ k) (2 ^ l) label offset)

  get_label_id-fields :
      (fid label offset : ℕ)
      → label < 2 ^ l
      → label < 2 ^ 32
      → offset < 2 ^ k
      → get_label_id (layout k l f) (fields k l f fid label offset) ≡ label
  unfolding get_label_id
  get_label_id-fields fid label offset a b c =
      let upper : bit_and (fid * 2 ^ l + label) (2 ^ l - 1) ≡ label =
        bit_and_mask l (fid * 2 ^ l + label) ∙ remainder fid (2 ^ l) label a in
      let cut : bit_and (fields k l f fid label offset) ((2 ^ l - 1) * 2 ^ k) ≡ label * 2 ^ k + 0 =
        ground (
          arith,
          regrouped fid label offset,
          one-le-pow k 2,
          bit_and_fields k (fid * 2 ^ l + label) offset (2 ^ l - 1) 0,
          upper,
          bit_and-zero offset,
        ) in
      rw (cut, quotient label (2 ^ k) 0 (omega (arith, one-le-pow k 2)))
        (mod-eq_of_lt {n = label} {m = 2 ^ 32} b)

  get_offset-fields :
      (fid label offset : ℕ)
      → offset < 2 ^ k
      → get_offset (layout k l f) (fields k l f fid label offset) ≡ offset
  unfolding get_offset
  get_offset-fields fid label offset h = rw (regrouped fid label offset) (
      bit_and_mask k ((fid * 2 ^ l + label) * 2 ^ k + offset)
      ∙ remainder (fid * 2 ^ l + label) (2 ^ k) offset h)

  get_lid-fields :
      (fid label offset : ℕ)
      → label < 2 ^ l
      → offset < 2 ^ k
      → get_lid (layout k l f) (fields k l f fid label offset) ≡ fields k l f 0 label offset
  unfolding get_lid fields
  get_lid-fields fid label offset a b =
      bit_and_mask (k + l) (fid * 2 ^ (k + l) + (label * 2 ^ k + offset))
      ∙ remainder fid (2 ^ (k + l)) (label * 2 ^ k + offset) (lower_fields k l f label offset a b)
      ∙ omega arith

  fields_fit :
      (fid label offset : ℕ)
      → fid < 2 ^ f
      → label < 2 ^ l
      → offset < 2 ^ k
      → fields k l f fid label offset < 2 ^ (k + l + f)
  unfolding fields
  fields_fit fid label offset a b c = omega (
    arith,
    lower_fields k l f label offset b c,
    times_below fid (2 ^ (k + l)) (2 ^ f) a,
    two-pow-add (k + l) f,
  )

abbrev GivesBack : ℕ → IdParser → ℕ → ℕ → ℕ → Type 0
GivesBack w p fid label offset =
    let id = generate_id w p fid label offset in
    (get_fid p id ≡ fid)
    × (get_label_id p id ≡ label)
    × (get_offset p id ≡ offset)
    × (get_lid p id ≡ generate_id w p 0 label offset)
    × (id < 2 ^ w)

layout-GivesBack :
    (k l f fid label offset : ℕ)
    → fid < 2 ^ f
    → fid < 2 ^ 32
    → label < 2 ^ l
    → label < 2 ^ 32
    → offset < 2 ^ k
    → GivesBack (k + l + f) (layout k l f) fid label offset
layout-GivesBack k l f fid label offset a b c d e =
    let made = generate_id-fields k l f fid label offset a c e in
    rw (made, generate_id-fields k l f 0 label offset (one-le-pow f 2 (omega arith)) c e)
      (
        get_fid-fields k l f fid label offset b c e,
        get_label_id-fields k l f fid label offset c d e,
        get_offset-fields k l f fid label offset e,
        get_lid-fields k l f fid label offset c e,
        fields_fit k l f fid label offset a c e,
      )

-- Where the widths of the two counts fit in an id of w bits, a vertex id is below `2 ^ w`, gives
-- back the fragment, the label and the offset that it was made of, and its local id is the id that
-- the same vertex has in fragment 0.
pub generate_id_roundtrip :
    (w fnum label_num fid label offset : ℕ)
    → fnum < 2 ^ 31
    → label_num < 2 ^ 31
    → num_to_bitwidth label_num + num_to_bitwidth fnum ≤ w
    → fid < fnum
    → label < label_num
    → offset < 2 ^ (init w fnum label_num).label_id_offset
    → let p = init w fnum label_num in
      let id = generate_id w p fid label offset in
      (get_fid p id ≡ fid)
      × (get_label_id p id ≡ label)
      × (get_offset p id ≡ offset)
      × (get_lid p id ≡ generate_id w p 0 label offset)
      × (id < 2 ^ w)
generate_id_roundtrip w fnum label_num fid label offset a b fits c d e =
    let l = num_to_bitwidth label_num in
    let f = num_to_bitwidth fnum in
    let k = w - (l + f) in
    let wl = num_to_bitwidth_lem label_num b in
    let wf = num_to_bitwidth_lem fnum a in
    let sum : k + l + f ≡ w = omega arith in
    let made = init-layout w k fnum label_num a b sum in
    let below : offset < 2 ^ k = subst (λ (p : IdParser). offset < 2 ^ p.label_id_offset) made e in
    subst (λ (p : IdParser). GivesBack w p fid label offset) (sym made)
      (subst (λ v. GivesBack v (layout k l f) fid label offset) sum
        (layout-GivesBack k l f fid label offset (omega arith) (omega arith) (omega arith)
          (omega arith) below))
