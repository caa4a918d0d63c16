-- ===== src/Rules/Schema.antt =====
-- internal/rules/schema.go and internal/rules/egress.go: the rule document as it is decoded from JSON.
-- A map of Go is a list of pairs with one pair for each key. A JSON number is an integer here.
use mitmania.Prelude.{
  Bool, true, false, not, Option, none, some, List, [], ◌∷◌, Bytes, same, ◌||◌, if◌then◌else◌,
  ◌>>=◌,
}
use mitmania.Prelude.Int.{ℤ}
use mitmania.Rules.Pattern.Glob.{is_empty}

-- What `any` holds after decoding.
mutual
  pub data Value : Type 0 where
    null : Value
    boolean : Bool → Value
    number : ℤ → Value
    text : Bytes → Value
    array : Values → Value
    object : Fields → Value

  pub data Values : Type 0 where
    nil : Values
    cons : Value → Values → Values

  pub data Fields : Type 0 where
    end : Fields
    field : Bytes → Value → Fields → Fields

abbrev pub Params : Type 0
Params = List (Bytes × Value)

-- `v, ok := p[key]`
unfoldable pub param : Params → Bytes → Option Value
param [] key = none
param ((k, v) ∷ more) key = if same k key then some v else param more key

abbrev as_text : Value → Option Bytes
as_text (text s) = some s
as_text _ = none

abbrev as_int : Value → Option ℤ
as_int (number n) = some n
as_int _ = none

abbrev as_bool : Value → Option Bool
as_bool (boolean b) = some b
as_bool _ = none

texts : Values → Option (List Bytes)
texts nil = some []
texts (cons v vs) = do s ← as_text v; more ← texts vs; some (s ∷ more)

abbrev as_texts : Value → Option (List Bytes)
as_texts (array vs) = texts vs
as_texts _ = none

abbrev is_null_value : Value → Bool
is_null_value null = true
is_null_value _ = false

-- The typed reads of `Params`; `none` is `ok == false`.
unfoldable pub string_param : Params → Bytes → Option Bytes
unfolding param
string_param p key = do v ← param p key; as_text v

unfoldable pub int_param : Params → Bytes → Option ℤ
unfolding param
int_param p key = do v ← param p key; as_int v

unfoldable pub bool_param : Params → Bytes → Option Bool
unfolding param
bool_param p key = do v ← param p key; as_bool v

unfoldable pub string_slice_param : Params → Bytes → Option (List Bytes)
unfolding param texts
string_slice_param p key = do v ← param p key; as_texts v

abbrev null_found : Option Value → Bool
null_found none = false
null_found (some v) = is_null_value v

unfoldable pub is_null_param : Params → Bytes → Bool
unfolding param
is_null_param p key = null_found (param p key)

pub record Match : Type 0 where
  pub host : Bytes
  pub port : Bytes
  pub proto : Bytes
  pub path : Bytes
  pub method : Bytes
  pub header : List (Bytes × Bytes)
  pub status : Bytes

pub record Action : Type 0 where
  pub action : Bytes
  pub params : Params

-- `accept` is a pointer: `none` is nil.
pub record Connection : Type 0 where
  pub accept : Option Bool

pub record Rule : Type 0 where
  pub match : Match
  pub connection : Option Connection
  pub mitm : Option Bool
  pub request : List Action
  pub response : List Action

-- `Rule.mitm`
unfoldable pub intercepts : Rule → Bool
intercepts r = elim r.mitm [ none ↦ true | some b ↦ b ]

unfoldable pub has_message_fields : Match → Bool
has_message_fields m = not (is_empty m.path) || not (is_empty m.method) || not (is_empty m.header)

pub record EgressRule : Type 0 where
  pub cidr : Bytes
  pub port : Bytes
  pub proto : Bytes
  pub action : Bytes

pub record BasicCredential : Type 0 where
  pub user : Bytes
  pub hash : Bytes

pub record BearerCredential : Type 0 where
  pub id : Bytes
  pub hash : Bytes

pub record AuthBroker : Type 0 where
  pub socket : Bytes
  pub url : Bytes
  pub path : Bytes

pub record HttpProxyAuth : Type 0 where
  pub required : Bool
  pub realm : Bytes
  pub basic : List BasicCredential
  pub bearer : List BearerCredential
  pub broker : Option AuthBroker

pub record AuthConfig : Type 0 where
  pub http_proxy : Option HttpProxyAuth

-- `egress` is `none` where the key is absent, which is not the empty list.
pub record RuleFile : Type 0 where
  pub uuid : Bytes
  pub auth : Option AuthConfig
  pub http : List Rule
  pub egress : Option (List EgressRule)
