-- ===== src/Gateway/Writes.antt =====
-- What a write command of crates/snap7-opcua-gateway/src/poller.rs sends.
use rs_snap.Prelude.{
  ◌≡◌, ◌≢◌, refl, sym, ap, ◌∙◌, arith, Bool, Bool-cases, inl, inr, All, ◌∷◌, ◌++◌, true, false,
  Option, some, none, List, [], if◌then◌else◌, ◌==◌,
}
use rs_snap.Wire.{Bytes}
use rs_snap.Io.{Outcome, done, failed, crash}
use rs_snap.S7.Codes.{TransportSize, transport_code}
use rs_snap.Client.Session.{Inner}
use rs_snap.Client.Areas.{db_write}
use rs_snap.Gateway.{
  OpcUa, TagEntry, Stepped, refused, after_write, find_by_node_id, write_bytes, write_entry,
  apply_write,
}
use rs_snap.Gateway.Values.{Variant, variant_to_bytes}

module _ (ua : OpcUa) where
  if_sent :
      (b : Bool) (x : Stepped ua (Unit {0})) (space : ua.Space) (inner : Inner)
      → (if b then x else refused ua space inner).1.1.0 ≢ []
      → (b ≡ true) × ((if b then x else refused ua space inner).1.1.0 ≡ x.1.1.0)
  if_sent true x space inner sends = (refl, refl)
  if_sent false x space inner sends = absurd (sends refl)

  sent-after_write :
      (node_id : ua.NodeId) (v : Variant) (space : ua.Space)
      (r : Inner × (Bytes × Outcome ((Unit {0}) × Bytes)))
      → (after_write ua node_id v space r).1.1.0 ≡ r.1.0
  sent-after_write node_id v space (inner, (sent, done (u, rest))) = refl
  sent-after_write node_id v space (inner, (sent, failed e)) = refl
  sent-after_write node_id v space (inner, (sent, crash)) = refl

  sent-write_bytes :
      (entry : TagEntry ua) (v : Variant) (o : Option (Bytes × TransportSize)) (space : ua.Space)
      (inner : Inner) (input : Bytes)
      → (write_bytes ua entry v o space inner input).1.1.0 ≢ []
      → (bytes : Bytes) × (ts : TransportSize) × (o ≡ some (bytes, ts))
        × ((transport_code ts == transport_code entry.address.transport) ≡ true)
        × ((write_bytes ua entry v o space inner input).1.1.0
            ≡ (db_write entry.address.db_number entry.address.byte_offset bytes inner input).1.0)
  sent-write_bytes entry v none space inner input sends = absurd (sends refl)
  sent-write_bytes entry v (some (bytes, ts)) space inner input sends =
      let write = db_write entry.address.db_number entry.address.byte_offset bytes inner input in
      let (same, e) =
        if_sent (transport_code ts == transport_code entry.address.transport)
          (after_write ua entry.node_id v space write) space inner sends in
      (bytes, ts, refl, same, e ∙ sent-after_write entry.node_id v space write)

  -- The first of the entries with the node: those in front of it have another one.
  pub record IsFound (entries : List (TagEntry ua)) (node_id : ua.NodeId) (entry : TagEntry ua)
      : Type 0 where
    pub front : List (TagEntry ua)
    pub back : List (TagEntry ua)
    pub listed : entries ≡ front ++ (entry ∷ back)
    pub is_node : ua.same_node entry.node_id node_id ≡ true
    pub others : All (λ other. ua.same_node other.node_id node_id ≡ false) front

  find_by_node_id-IsFound :
      (entries : List (TagEntry ua)) (node_id : ua.NodeId) (entry : TagEntry ua)
      → find_by_node_id ua entries node_id ≡ some entry
      → IsFound entries node_id entry
  unfolding find_by_node_id
  find_by_node_id-IsFound [] node_id entry e = absurd (cc)
  find_by_node_id-IsFound (first ∷ entries) node_id entry e =
      elim (Bool-cases (ua.same_node first.node_id node_id)) [
        | inl same ↦
            let is_first : first ≡ entry = ground arith in
            record {
              front = [];
              back = entries;
              listed = ap (λ x. x ∷ entries) is_first;
              is_node = ap (λ x. ua.same_node x.node_id node_id) (sym is_first) ∙ same;
              others = tt;
            }
        | inr other ↦
            let found = find_by_node_id-IsFound entries node_id entry (ground arith) in
            record {
              front = first ∷ found.front;
              back = found.back;
              listed = ap (λ x. first ∷ x) found.listed;
              is_node = found.is_node;
              others = (other, found.others);
            }
      ]

  -- What a command that sends anything has found and sends.
  pub record Written (entries : List (TagEntry ua)) (node_id : ua.NodeId) (v : Variant)
      (inner : Inner) (input sent : Bytes) : Type 0 where
    pub entry : TagEntry ua
    pub content : Bytes
    pub ts : TransportSize
    pub found : IsFound entries node_id entry
    pub is_writable : entry.writable ≡ true
    pub converted : variant_to_bytes v ≡ some (content, ts)
    pub same_type : (transport_code ts == transport_code entry.address.transport) ≡ true
    pub writes :
        sent ≡ (db_write entry.address.db_number entry.address.byte_offset content inner input).1.0

  sent-write_entry :
      (entries : List (TagEntry ua)) (node_id : ua.NodeId) (o : Option (TagEntry ua)) (v : Variant)
      (space : ua.Space) (inner : Inner) (input : Bytes)
      → find_by_node_id ua entries node_id ≡ o
      → (write_entry ua o v space inner input).1.1.0 ≢ []
      → Written entries node_id v inner input (write_entry ua o v space inner input).1.1.0
  sent-write_entry entries node_id none v space inner input f sends = absurd (sends refl)
  sent-write_entry entries node_id (some entry) v space inner input f sends =
      let (free, e) =
        if_sent entry.writable (write_bytes ua entry v (variant_to_bytes v) space inner input) space
          inner sends in
      let (bytes, ts, converted, same, e') =
        sent-write_bytes entry v (variant_to_bytes v) space inner input
          (λ none_sent. sends (e ∙ none_sent)) in
      record {
        entry = entry;
        content = bytes;
        ts = ts;
        found = find_by_node_id-IsFound entries node_id entry f;
        is_writable = free;
        converted = converted;
        same_type = same;
        writes = e ∙ e';
      }

  -- A write command sends nothing to the PLC unless the first tag with its node is writable and its value has
  -- the type of that tag. What it sends then is a `db_write` of the value's bytes at the tag's block and byte.
  pub apply_write-Written :
      (entries : List (TagEntry ua)) (node_id : ua.NodeId) (v : Variant) (space : ua.Space)
      (inner : Inner) (input : Bytes)
      → (apply_write ua entries node_id v space inner input).1.1.0 ≢ []
      → Written entries node_id v inner input
          (apply_write ua entries node_id v space inner input).1.1.0
  unfolding apply_write
  apply_write-Written entries node_id v space inner input sends =
      sent-write_entry entries node_id (find_by_node_id ua entries node_id) v space inner input refl
        sends
