-- ===== src/Mqtt/Pack.antt =====
-- gate/base/mqtt/mqtt.go: the packets and the errors of the codec. A `*string` that may be nil is
-- an `Option Bytes`; the dynamic type of `Pack.variable` is the constructor of `Variable`.
use mqant.Prelude.{ℕ, ◌==◌, Bool, if◌then◌else◌, Option, some, List, [], Bytes}

pub record Connect : Type 0 where
  pub protocol : Option Bytes
  pub version : ℕ
  pub keep_alive_timer : ℕ
  pub return_code : ℕ
  pub user_name : Bool
  pub password : Bool
  pub will_retain : Bool
  pub will_qos : ℕ
  pub will_flag : Bool
  pub clean_session : Bool
  pub rserved : Bool
  pub id : Option Bytes
  pub will_topic : Option Bytes
  pub will_msg : Option Bytes
  pub uname : Option Bytes
  pub upassword : Option Bytes

-- `c.GetUserName()`: the text `""` unless the flag is set.
pub get_user_name : Connect → Option Bytes
get_user_name c = if c.user_name then c.uname else some []

pub get_password : Connect → Option Bytes
get_password c = if c.password then c.upassword else some []

-- `c.GetKeepAlive()` stores the default of 60 seconds before it returns it.
pub get_keep_alive : Connect → ℕ × Connect
get_keep_alive c =
    let c' = if c.keep_alive_timer == 0 then record c { keep_alive_timer = 60 } else c in
    (c'.keep_alive_timer, c')

pub record Connack : Type 0 where
  pub reserved : ℕ
  pub return_code : ℕ

pub record Publish : Type 0 where
  pub topic_name : Option Bytes
  pub mid : ℕ
  pub msg : Bytes

pub record Puback : Type 0 where
  pub mid : ℕ

pub record Topics : Type 0 where
  pub name : Option Bytes
  pub qos : ℕ

pub record Subscribe : Type 0 where
  pub mid : ℕ
  pub topics : List Topics

pub record Suback : Type 0 where
  pub mid : ℕ
  pub qos : ℕ

pub record UnSubscribe : Type 0 where
  pub mid : ℕ
  pub topics : List Topics

pub record UnSuback : Type 0 where
  pub mid : ℕ

pub data Variable : Type 0 where
  nil : Variable
  connect : Connect → Variable
  connack : Connack → Variable
  publish : Publish → Variable
  puback : Puback → Variable
  subscribe : Subscribe → Variable
  suback : Suback → Variable
  unsubscribe : UnSubscribe → Variable
  unsuback : UnSuback → Variable

pub record Pack : Type 0 where
  pub msg_type : ℕ
  pub dup_flag : ℕ
  pub qos_level : ℕ
  pub retain : ℕ
  pub length : ℕ
  pub variable : Variable

-- The errors of the reader, of the writer and of the queue above them.
pub data Error : Type 0 where
  eof unexpected_eof : Error
  out_of_max_length : ℕ → Error
  out_of_range : Error
  identifier_rejected : ℕ → Error
  length_error : Error
  bad_length : ℕ → ℕ → Error
  io_error nil_pointer : Error
  disconnect writer_full write_pack_panic not_connect_pack connection_closed : Error
