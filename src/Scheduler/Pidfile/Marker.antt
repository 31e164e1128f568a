-- ===== src/Scheduler/Pidfile/Marker.antt =====
-- src/nexolith/scheduler/pidfile.py: what the marker says, `_payload` and `read_pidfile`.
use nexolith.Base.{
  ℕ, suc, String, List, [], ◌∷◌, Bool, true, false, ◌&&◌, Option, none, some, ◌==◌, nat_eq,
  string_eq, if◌then◌else◌, Result, ok, err, unexpected,
}

pub record PidFileRecord : Type 0 where
  pub pid : ℕ
  pub started_at : String
  pub owner_create_time_ns : Option ℕ

-- A file: `unreadable` raises an OSError, `undecodable` holds bytes that are no UTF-8.
pub data MarkerFile : Type 0 where
  absent unreadable undecodable : MarkerFile
  text : String → MarkerFile

-- A value in a parsed JSON object; `other` is an array, an object, or a number with a point.
pub data Value : Type 0 where
  null other : Value
  boolean : Bool → Value
  integer : (negative : Bool) → ℕ → Value
  string : String → Value

pub data Json : Type 0 where
  no_object : Json
  object : List (String × Value) → Json

-- The json module: `loads` has no value for a text that is no JSON.
pub record JsonCodec : Type 0 where
  pub dumps : Json → String
  pub loads : String → Option Json

abbrev pub lookup : String → List (String × Value) → Option Value
lookup key [] = none
lookup key ((k, v) ∷ rest) = if k == key then some v else lookup key rest

abbrev pub create_time_entry : Option ℕ → List (String × Value)
create_time_entry none = []
create_time_entry (some t) = ("owner_create_time_ns", integer false t) ∷ []

-- The dictionary of `_payload`.
abbrev pub fields : PidFileRecord → List (String × Value)
fields r =
    ("pid", integer false r.pid)
    ∷ ("started_at", string r.started_at)
    ∷ create_time_entry r.owner_create_time_ns

abbrev pub payload : JsonCodec → PidFileRecord → String
payload codec r = codec.dumps (object (fields r))

-- An integer above 0, and no Boolean.
abbrev pub positive : Option Value → Option ℕ
positive (some (integer false (suc n))) = some (suc n)
positive _ = none

abbrev pub started : Option Value → Option String
started (some (string s)) = if s == "" then none else some s
started _ = none

-- A missing creation time or a null one is none; the outer `none` refuses the marker.
abbrev pub create_time : Option Value → Option (Option ℕ)
create_time none = some none
create_time (some null) = some none
create_time (some (integer false (suc n))) = some (some (suc n))
create_time _ = none

abbrev pub assemble : Option ℕ → Option String → Option (Option ℕ) → Option PidFileRecord
assemble (some pid) (some started_at) (some t) =
    some (record { pid = pid; started_at = started_at; owner_create_time_ns = t })
assemble _ _ _ = none

unfoldable pub read_json : Option Json → Option PidFileRecord
read_json (some (object entries)) =
    assemble (positive (lookup "pid" entries)) (started (lookup "started_at" entries))
      (create_time (lookup "owner_create_time_ns" entries))
read_json _ = none

-- A UnicodeDecodeError is no OSError, and passes through.
unfoldable pub read_pidfile : JsonCodec → MarkerFile → Result (Option PidFileRecord)
unfolding read_json
read_pidfile codec absent = ok none
read_pidfile codec unreadable = ok none
read_pidfile codec undecodable = err (unexpected "UnicodeDecodeError")
read_pidfile codec (text content) = ok (read_json (codec.loads content))

abbrev pub same_time : Option ℕ → Option ℕ → Bool
same_time none none = true
same_time (some a) (some b) = a == b
same_time _ _ = false

-- The equality of the frozen dataclass.
abbrev pub same_record : PidFileRecord → PidFileRecord → Bool
same_record a b =
    a.pid == b.pid
    && a.started_at == b.started_at
    && same_time a.owner_create_time_ns b.owner_create_time_ns
