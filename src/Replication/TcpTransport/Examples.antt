-- ===== src/Replication/TcpTransport/Examples.antt =====
-- Concrete responses and fetches.
use distributed_real_time_ev.Base.{pos, none, some, List, [], ◌∷◌, arith, ◌≡◌, refl}
use distributed_real_time_ev.Base.Text.{
  ◌⧺◌, split, split_n, cut, join, digits, itoa, read_digits, atoi, is_space, trim_right, trim_space,
}
use distributed_real_time_ev.Protocol.{ok, err}
use distributed_real_time_ev.Storage.Names.{strip_prefix}
use distributed_real_time_ev.Replication.Worker.{ReplicationRecord}
use distributed_real_time_ev.Replication.TcpTransport.{
  payload, refused, parse_ok_payload, behind, extract_string_field, extract_int_field, parse_item,
  parse_items, parse_records, parse_fetch, record_text, records_text,
}
use distributed_real_time_ev.Replication.TcpTransport.Records.{parse_records-records_text}
use distributed_real_time_ev.Replication.TcpTransport.Responses.{response_lem}

abbrev two : List ReplicationRecord
two = record { offset = pos 3; value = "x:y" } ∷ record { offset = pos 4; value = "z" } ∷ []

parse_records-records_text_example : parse_records (records_text two) ≡ some two
parse_records-records_text_example = parse_records-records_text two (
  record { offset = (omega arith, omega arith); no_comma = (refl, (refl, (refl, tt))) },
  (record { offset = (omega arith, omega arith); no_comma = (refl, tt) }, tt),
)

response_lem_example :
    (parse_ok_payload (trim_space (ok "17" "hw=3 records=0:a|b")) ≡ payload "hw=3 records=0:a|b")
    × (parse_ok_payload (trim_space (err "17" "NOT_LEADER" "hw=3 records=0:a|b"))
        ≡ refused ("NOT_LEADER" ⧺ ": " ⧺ "hw=3 records=0:a|b"))
unfolding trim_right is_space
response_lem_example =
    response_lem "17" "hw=3 records=0:a|b" "NOT_LEADER" (refl, (refl, tt))
      (refl, (refl, (refl, (refl, (refl, (refl, (refl, (refl, (refl, (refl, tt)))))))))) refl refl

-- A value with a comma: the fetch fails.
test_comma : parse_records (records_text (record { offset = pos 3; value = "a,b" } ∷ [])) ≡ none
unfolding parse_records parse_items parse_item records_text record_text split split_n cut join itoa
    digits atoi read_digits ◌⧺◌
test_comma = refl

-- A value with a space: the follower gets the part before it.
test_space :
    parse_fetch ("hw=9 records=" ⧺ records_text (record { offset = pos 3; value = "a b" } ∷ []))
    ≡ some
        (record { high_watermark = pos 9; records = record { offset = pos 3; value = "a" } ∷ [] })
unfolding parse_fetch extract_string_field extract_int_field behind strip_prefix parse_records
    parse_items parse_item records_text record_text split split_n cut join itoa digits atoi
    read_digits ◌⧺◌
test_space = refl
