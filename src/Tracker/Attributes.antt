-- ===== src/Tracker/Attributes.antt =====
-- What RADIUSSessionTracker.cpp takes from the attributes of a packet.
use wlan_cloud_ucentralgw.Base.{
  ℕ, ◌+◌, ◌*◌, ◌%◌, ◌^◌, Bool, ◌&&◌, ◌||◌, leb, any, List, [], ◌∷◌, ◌==◌, if◌then◌else◌,
}
use wlan_cloud_ucentralgw.Base.Table.{Text}
use wlan_cloud_ucentralgw.Radius.Parse.{Buffer, RadiusAttribute, AttributeList}
use wlan_cloud_ucentralgw.Radius.Packet.{RadiusPacket, bytes_at}

-- The local variables of the two functions; `status` is `AccountingPacketType`.
pub record Names : Type 0 where
  pub user_name : Text
  pub calling_station_id : Text
  pub called_station_id : Text
  pub accounting_session_id : Text
  pub accounting_multi_session_id : Text
  pub chargeable_user_identity : Text
  pub interface : Text
  pub nas_id : Text

pub record Fields : Type 0 where
  pub names : Names
  pub status : ℕ
  pub input_octets : ℕ
  pub output_octets : ℕ
  pub input_packets : ℕ
  pub output_packets : ℕ
  pub input_giga_words : ℕ
  pub output_giga_words : ℕ
  pub session_time : ℕ

abbrev pub no_names : Names
no_names = record {
  user_name = [];
  calling_station_id = [];
  called_station_id = [];
  accounting_session_id = [];
  accounting_multi_session_id = [];
  chargeable_user_identity = [];
  interface = [];
  nas_id = [];
}

abbrev pub no_fields : Fields
no_fields = record {
  names = no_names;
  status = 0;
  input_octets = 0;
  output_octets = 0;
  input_packets = 0;
  output_packets = 0;
  input_giga_words = 0;
  output_giga_words = 0;
  session_time = 0;
}

-- `GetUiInt32`.
unfoldable pub get_u32 : Buffer → ℕ → ℕ
get_u32 b i = (b i * 2 ^ 24 + b (i + 1) * 2 ^ 16 + b (i + 2) * 2 ^ 8 + b (i + 3)) % 2 ^ 32

-- The last of exactly four tokens of the proxy state.
unfoldable pub read_interface : List Text → Names → Names
read_interface (a ∷ b ∷ c ∷ d ∷ []) f = record f { interface = d }
read_interface _ f = f

-- The attributes that both functions read: the user name, the stations, the ids, the proxy state.
unfoldable pub read_names : (Text → List Text) → Buffer → RadiusAttribute → Names → Names
read_names tokens b a f =
    let s = bytes_at b a.pos a.len in
    if a.type == 1
    then record f { user_name = s }
    else if a.type == 31
    then record f { calling_station_id = s }
    else if a.type == 30
    then record f { called_station_id = s }
    else if a.type == 44
    then record f { accounting_session_id = s }
    else if a.type == 50
    then record f { accounting_multi_session_id = s }
    else if a.type == 89
    then record f { chargeable_user_identity = s }
    else if a.type == 33
    then read_interface (tokens s) f
    else f

unfoldable pub read_authentication : (Text → List Text) → Buffer → RadiusAttribute → Names → Names
read_authentication tokens b a f =
    if a.type == 32 then record f { nas_id = bytes_at b a.pos a.len } else read_names tokens b a f

unfoldable pub read_accounting : (Text → List Text) → Buffer → RadiusAttribute → Fields → Fields
read_accounting tokens b a f =
    let n = get_u32 b a.pos in
    if a.type == 40
    then record f { status = b (a.pos + 3) }
    else if a.type == 42
    then record f { input_octets = n }
    else if a.type == 47
    then record f { input_packets = n }
    else if a.type == 52
    then record f { input_giga_words = n }
    else if a.type == 43
    then record f { output_octets = n }
    else if a.type == 48
    then record f { output_packets = n }
    else if a.type == 53
    then record f { output_giga_words = n }
    else if a.type == 46
    then record f { session_time = n }
    else record f { names = read_names tokens b a f.names }

-- `assign(&attributes[pos], &attributes[pos + len])` throws where the sum, which has 32 bits, wraps:
-- the end of the range then lies before its start.
abbrev pub wraps : RadiusAttribute → Bool
wraps a = leb (2 ^ 32) (a.pos + a.len)

-- The types of the attributes that are read with `assign`.
abbrev pub is_text_type : ℕ → Bool
is_text_type type =
    type == 1
    || (type == 31 || (type == 30 || (type == 44 || (type == 50 || (type == 89 || type == 33)))))

-- Whether the loop over the attributes throws, before anything but local variables has changed.
unfoldable pub accounting_throws : RadiusPacket → Bool
accounting_throws p = any (λ a. is_text_type a.type && wraps a) p.attrs

unfoldable pub authentication_throws : RadiusPacket → Bool
authentication_throws p = any (λ a. (a.type == 32 || is_text_type a.type) && wraps a) p.attrs

-- `for (const auto &attribute : Packet_.Attrs_)`: a later attribute of the same type wins.
unfoldable pub read_all {ℓ} : {F : Type ℓ} → (RadiusAttribute → F → F) → AttributeList → F → F
read_all read [] f = f
read_all read (a ∷ attrs) f = read_all read attrs (read a f)

unfoldable pub accounting_fields : (Text → List Text) → RadiusPacket → Fields
accounting_fields tokens p = read_all (read_accounting tokens p.attributes) p.attrs no_fields

unfoldable pub authentication_names : (Text → List Text) → RadiusPacket → Names
authentication_names tokens p = read_all (read_authentication tokens p.attributes) p.attrs no_names
