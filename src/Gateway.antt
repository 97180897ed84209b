-- ===== src/Gateway.antt =====
-- crates/snap7-opcua-gateway/src: the registry of tags (registry.rs), and
-- the writes and polls of a poller. The OPC UA library is a parameter: its node numbers and its address
-- space. A number of a signed type or a float is its bits.
pub mod Values
pub mod Writes
use rs_snap.Prelude.{
  ℕ, ◌+◌, ◌*◌, ◌%◌, ◌^◌, ◌/◌, Bool, true, false, not, Option, none, some, List, [], ◌∷◌, ◌++◌,
  length, get_or, leb, ◌==◌, if◌then◌else◌,
}
use rs_snap.Wire.{Bytes, put_u16, put_u32}
use rs_snap.Io.{Error, Outcome, done, failed, crash}
use rs_snap.S7.Codes.{TransportSize, transport_code}
use rs_snap.Str.{Text}
use rs_snap.Tag.{TagAddress, parse_tag}
use rs_snap.Client.Session.{Inner}
use rs_snap.Client.Areas.{db_read, db_write}
use rs_snap.Gateway.Values.{Variant, bytes_to_variant, transport_size_bytes, variant_to_bytes}

pub record TagSpec : Type 0 where
  pub tag : Text
  pub name : Text
  pub writable : Bool

-- The numbers of nodes in namespace 2, their equality, and the variables of an address space.
pub record OpcUa : Type 1 where
  pub NodeId : Type 0
  pub Space : Type 0
  pub named : Text → NodeId
  pub same_node : NodeId → NodeId → Bool
  pub has_variable : NodeId → Space → Bool
  pub set_value : NodeId → Variant → Space → Space

-- How a run on the PLC ends, with the input that is left: with a value, with an error of the client or of
-- the gateway, or in a panic.
pub data Ending (A : Type 0) : Type 0 where
  finished : A → Bytes → Ending A
  plc : Error → Ending A
  opc_ua : Ending A
  panicked : Ending A

module _ (ua : OpcUa) where
  pub record TagEntry : Type 0 where
    pub node_id : ua.NodeId
    pub address : TagAddress
    pub name : Text
    pub writable : Bool
    pub plc_index : ℕ

  abbrev entry_of : TagSpec → ℕ → TagAddress → TagEntry
  entry_of spec plc_index address = record {
    node_id = ua.named spec.name;
    address = address;
    name = spec.name;
    writable = spec.writable;
    plc_index = plc_index;
  }

  abbrev add_entry :
      TagSpec → ℕ → Outcome TagAddress → Outcome (List TagEntry) → Outcome (List TagEntry)
  add_entry spec plc_index (done address) (done entries) =
      done (entry_of spec plc_index address ∷ entries)
  add_entry spec plc_index (done address) (failed e) = failed e
  add_entry spec plc_index (done address) crash = crash
  add_entry spec plc_index (failed e) entries = failed e
  add_entry spec plc_index crash entries = crash

  -- The first specification that does not parse gives the error.
  unfoldable pub from_specs : List TagSpec → ℕ → Outcome (List TagEntry)
  from_specs [] plc_index = done []
  from_specs (spec ∷ specs) plc_index =
      add_entry spec plc_index (parse_tag spec.tag) (from_specs specs plc_index)

  unfoldable pub find_by_node_id : List TagEntry → ua.NodeId → Option TagEntry
  find_by_node_id [] node_id = none
  find_by_node_id (entry ∷ entries) node_id =
      if ua.same_node entry.node_id node_id then some entry else find_by_node_id entries node_id

  -- What a step leaves: the address space, the client, the bytes sent and the ending.
  abbrev pub Stepped : Type 0 → Type 0
  Stepped A = ua.Space × (Inner × (Bytes × Ending A))

  abbrev pub refused : {A : Type 0} → ua.Space → Inner → Stepped A
  refused space inner = (space, (inner, ([], opc_ua)))

  abbrev pub update : ua.NodeId → Variant → ua.Space → ua.Space
  update node_id v space =
      if ua.has_variable node_id space then ua.set_value node_id v space else space

  abbrev pub after_write :
      ua.NodeId
      → Variant
      → ua.Space
      → Inner × (Bytes × Outcome ((Unit {0}) × Bytes))
      → Stepped (Unit {0})
  after_write node_id v space (inner, (sent, done (u, rest))) =
      (update node_id v space, (inner, (sent, finished u rest)))
  after_write node_id v space (inner, (sent, failed e)) = (space, (inner, (sent, plc e)))
  after_write node_id v space (inner, (sent, crash)) = (space, (inner, (sent, panicked)))

  abbrev pub write_bytes :
      TagEntry
      → Variant
      → Option (Bytes × TransportSize)
      → ua.Space
      → Inner
      → Bytes
      → Stepped (Unit {0})
  write_bytes entry v none space inner input = refused space inner
  write_bytes entry v (some (bytes, ts)) space inner input =
      if transport_code ts == transport_code entry.address.transport
      then after_write entry.node_id v space
          (db_write entry.address.db_number entry.address.byte_offset bytes inner input)
      else refused space inner

  abbrev pub write_entry : Option TagEntry → Variant → ua.Space → Inner → Bytes → Stepped (Unit {0})
  write_entry none v space inner input = refused space inner
  write_entry (some entry) v space inner input =
      if entry.writable
      then write_bytes entry v (variant_to_bytes v) space inner input
      else refused space inner

  unfoldable pub apply_write :
      List TagEntry → ua.NodeId → Variant → ua.Space → Inner → Bytes → Stepped (Unit {0})
  unfolding find_by_node_id variant_to_bytes
  apply_write entries node_id v space inner input =
      write_entry (find_by_node_id entries node_id) v space inner input

  -- The values that a poll has set.
  abbrev pub Updated : Type 0
  Updated = List (ua.NodeId × Variant)

  abbrev Poll : Type 0
  Poll = ua.Space → Inner → Bytes → Stepped Updated

  abbrev push_ending : ua.NodeId × Variant → Ending Updated → Ending Updated
  push_ending u (finished us rest) = finished (u ∷ us) rest
  push_ending u (plc e) = plc e
  push_ending u opc_ua = opc_ua
  push_ending u panicked = panicked

  abbrev push : ua.NodeId × Variant → Stepped Updated → Stepped Updated
  push u (space, (inner, (sent, ending))) = (space, (inner, (sent, push_ending u ending)))

  abbrev store_value : TagEntry → Option Variant → Poll → Poll
  store_value entry none next space inner rest = next space inner rest
  store_value entry (some v) next space inner rest =
      if ua.has_variable entry.node_id space
      then push (entry.node_id, v) (next (ua.set_value entry.node_id v space) inner rest)
      else next space inner rest

  abbrev behind : Bytes → Stepped Updated → Stepped Updated
  behind sent (space, (inner, (more, ending))) = (space, (inner, (sent ++ more, ending)))

  abbrev after_read :
      TagEntry → Poll → ua.Space → Inner × (Bytes × Outcome (Bytes × Bytes)) → Stepped Updated
  after_read entry next space (inner, (sent, done (bytes, rest))) =
      behind sent
        (store_value entry (bytes_to_variant bytes entry.address.transport) next space inner rest)
  after_read entry next space (inner, (sent, failed e)) = (space, (inner, (sent, plc e)))
  after_read entry next space (inner, (sent, crash)) = (space, (inner, (sent, panicked)))

  abbrev poll_entry : TagEntry → Option ℕ → Poll → Poll
  poll_entry entry none next space inner input = next space inner input
  poll_entry entry (some size) next space inner input =
      after_read entry next space
        (db_read entry.address.db_number entry.address.byte_offset (size % 2 ^ 16) inner input)

  unfoldable pub poll_once : List TagEntry → Poll
  unfolding bytes_to_variant transport_size_bytes
  poll_once [] space inner input = (space, (inner, ([], finished [] input)))
  poll_once (entry ∷ entries) space inner input =
      poll_entry entry (transport_size_bytes entry.address.transport entry.address.element_count)
        (poll_once entries) space inner input
