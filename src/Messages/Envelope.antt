-- ===== src/Messages/Envelope.antt =====
-- `Envelope` of raidex/messages.py, which packs a message into JSON text. rlp, base64 and json are
-- not part of the repository: what they do to a list of numbers and to a dictionary is a parameter,
-- with their documented behaviour that decoding takes back encoding.
use raidex.Prelude.{ℕ, ◌≡◌, ◌==◌, Option, none, some, List, if◌then◌else◌}
use raidex.Exec.{Result, ok, raised, value_error, key_error, other}
use raidex.Messages.{MessageClass, MessageName, msg_types_map, types_msg_map}
use raidex.Messages.Serial.{WireMessage, wire_class, Item, fields, serialize}
use raidex.Messages.Serial.Reading.{deserialize}

-- The dictionary of an envelope
pub record Packed (Data : Type 0) : Type 0 where
  pub version : ℕ
  pub msg : MessageName
  pub data_ : Data

pub record Codec : Type 1 where
  pub Data : Type 0
  pub Text : Type 0
  pub encode : List Item → Data
  pub decode : Data → Option (List Item)
  pub dumps : Packed Data → Text
  pub loads : Text → Option (Packed Data)

pub record IsCodec (codec : Codec) : Type 0 where
  pub decodes : (is : List Item) → codec.decode (codec.encode is) ≡ some is
  pub loads_dumped : (e : Packed (codec.Data)) → codec.loads (codec.dumps e) ≡ some e

-- `Envelope.version`
abbrev pub envelope_version : ℕ
envelope_version = 1

module _ (codec : Codec) where
  abbrev packed : WireMessage → Option (List Item) → Result (codec.Text)
  packed m none = raised other
  packed m (some is) = ok (
      codec.dumps (record {
        version = envelope_version;
        msg = types_msg_map (wire_class m);
        data_ = codec.encode is;
      }))

  -- `Envelope.envelop`
  unfoldable pub envelop : WireMessage → Result (codec.Text)
  unfolding types_msg_map wire_class serialize fields
  envelop m = packed m (serialize (fields m))

  abbrev deserialized : Option WireMessage → Result WireMessage
  deserialized none = raised other
  deserialized (some m) = ok m

  abbrev decoded : MessageClass → Option (List Item) → Result WireMessage
  decoded k none = raised other
  decoded k (some is) = deserialized (deserialize k is)

  abbrev open_as : Option MessageClass → codec.Data → Result WireMessage
  open_as none d = raised key_error
  open_as (some k) d = decoded k (codec.decode d)

  abbrev open_packed : Option (Packed (codec.Data)) → Result WireMessage
  open_packed none = raised value_error
  open_packed (some e) =
      if e.version == envelope_version
      then open_as (msg_types_map e.msg) e.data_
      else raised value_error

  -- `Envelope.open`
  unfoldable pub open_envelope : codec.Text → Result WireMessage
  unfolding msg_types_map deserialize
  open_envelope text = open_packed (codec.loads text)

  abbrev pub then_open : Result (codec.Text) → Result WireMessage
  then_open (raised x) = raised x
  then_open (ok text) = open_envelope text
