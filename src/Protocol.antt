-- ===== src/Protocol.antt =====
-- core/internal/protocol/protocol.go: requests and responses as lines of text. `upper` stands for
-- Go's unicode.ToUpper, which strings.ToUpper applies to every character.
pub mod Parsing
use Prim.Native.Char.{Char, code}
use distributed_real_time_ev.Base.{
  ℤ, not, ◌==◌, String, string_comparable, Option, List, [], ◌∷◌, filterb, if◌then◌else◌,
}
use distributed_real_time_ev.Base.Text.{◌⧺◌, split_n, trim_space, is_space, is_empty, atoi}

pub record Request : Type 0 where
  pub version : String
  pub correlation_id : String
  pub command : String
  pub args : List String

-- What `ParseRequest` returns.
pub data Parsed : Type 0 where
  bad_request : String → Parsed
  request : Request → Parsed

-- The texts between two white spaces, which may be empty.
words : String → List String
words String.[] = String.[] ∷ []
words (String.◌∷◌ c s) =
    let rest = words s in
    if is_space (code c)
    then String.[] ∷ rest
    else (elim rest [ [] ↦ String.◌∷◌ c String.[] ∷ [] | x ∷ xs ↦ String.◌∷◌ c x ∷ xs ])

-- strings.Fields
unfoldable pub fields : String → List String
unfolding words
fields s = filterb (λ w. not (is_empty w)) (words s)

unfoldable pub map_text : (Char → Char) → String → String
map_text f String.[] = String.[]
map_text f (String.◌∷◌ c s) = String.◌∷◌ (f c) (map_text f s)

-- The checks of `ParseRequest` on the four parts.
checked_request : String → String → String → String → Parsed
checked_request version correlation command args =
    if not (version == "V1")
    then bad_request "unsupported version"
    else if is_empty correlation
    then bad_request "correlation id required"
    else if is_empty command
    then bad_request "command required"
    else request (record {
      version = version;
      correlation_id = correlation;
      command = command;
      args = if is_empty args then [] else fields args;
    })

four_parts : (Char → Char) → List String → Parsed
four_parts upper (a ∷ b ∷ c ∷ d ∷ []) =
    checked_request (trim_space a) (trim_space b) (map_text upper (trim_space c)) (trim_space d)
four_parts upper _ = bad_request "expected format V1|<correlation_id>|<command>|<args>"

unfoldable pub parse_request : (Char → Char) → String → Parsed
unfolding four_parts checked_request
parse_request upper line = four_parts upper (split_n 3 "|" (trim_space line))

unfoldable pub ok : String → String → String
ok correlation payload =
    if is_empty payload
    then "V1" ⧺ String.◌∷◌ "|" (correlation ⧺ String.◌∷◌ "|" "OK\n")
    else "V1"
      ⧺ String.◌∷◌ "|" (correlation ⧺ String.◌∷◌ "|" ("OK" ⧺ String.◌∷◌ "|" (payload ⧺ "\n")))

unfoldable pub err : String → String → String → String
err correlation code message =
    "V1"
    ⧺ String.◌∷◌ "|" (
        (if is_empty correlation then "0" else correlation)
        ⧺ String.◌∷◌ "|" ("ERR" ⧺ String.◌∷◌ "|" (code ⧺ String.◌∷◌ "|" (message ⧺ "\n"))))

-- The number, or the error.
unfoldable pub parse_int : String → Option ℤ
parse_int value = atoi value
