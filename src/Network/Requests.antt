-- ===== src/Network/Requests.antt =====
-- The requests of core/internal/replication/tcp_transport.go, as core/internal/network/handler.go takes
-- them.
use Prim.Native.Char.{Char}
use distributed_real_time_ev.Base.{
  ℕ, ℤ, pos, IsInt64, leb_ℤ, false, String, string_comparable, List, [], ◌∷◌, All, ◌≡◌, refl, ap,
  ◌∙◌, arith,
}
use distributed_real_time_ev.Base.Text.{
  ◌⧺◌, itoa, is_empty, is_space, trim_left, trim_right, trim_space,
}
use distributed_real_time_ev.Base.Text.Splitting.{Free}
use distributed_real_time_ev.Base.Text.Numbers.{atoi-itoa, itoa-Free, itoa-nonempty}
use distributed_real_time_ev.Base.Text.Words.{
  Solid, itoa-Solid, trim_right-Solid, trim_left-Solid, trim_right-⧺,
}
use distributed_real_time_ev.Protocol.{request, map_text, parse_int, parse_request}
use distributed_real_time_ev.Protocol.Parsing.{sentence, Word, fields-sentence, parse-line}
use distributed_real_time_ev.Replication.TcpTransport.Client.{request_line, fetch_text}
use distributed_real_time_ev.Replication.Manager.AckAll.{Round}
use distributed_real_time_ev.Broker.{Broker, ◌>>=◌, pure, or_raise, raise_if}
use distributed_real_time_ev.Network.Arguments.{int_arg}
use distributed_real_time_ev.Network.Fetch.{serve_fetch, max_arg, fetch_args, handle_broker_fetch}
use distributed_real_time_ev.Network.{respond, route, routes, handle_request, answer_to, serve_line}

number-Word : (z : ℤ) → Word (itoa z)
number-Word z = (itoa-Solid z, itoa-nonempty z)

sentence-nonempty : (w : String) (ws : List String) → Word w → is_empty (sentence w ws) ≡ false
unfolding ◌⧺◌
sentence-nonempty String.[] ws h = absurd (cc h.1)
sentence-nonempty (String.◌∷◌ c w) [] h = refl
sentence-nonempty (String.◌∷◌ c w) (x ∷ xs) h = refl

spaced :
    (s : String)
    → is_empty s ≡ false
    → trim_right s ≡ s
    → trim_right (String.◌∷◌ " " s) ≡ String.◌∷◌ " " s
unfolding ◌⧺◌
spaced s h k = trim_right-⧺ " " s h k

fetch-Solid : Solid "BROKER_FETCH"
unfolding is_space
fetch-Solid = search

fetch-Free : Free "|" "BROKER_FETCH"
fetch-Free = search

trim_right-sentence :
    (w : String) (ws : List String) → All Word (w ∷ ws) → trim_right (sentence w ws) ≡ sentence w ws
trim_right-sentence w [] h = trim_right-Solid w h.0.0
trim_right-sentence w (x ∷ xs) h =
    trim_right-⧺ w (String.◌∷◌ " " (sentence x xs)) refl
      (spaced (sentence x xs) (sentence-nonempty x xs h.1.0) (trim_right-sentence x xs h.1))

trim_space-sentence :
    (w : String) (ws : List String) → All Word (w ∷ ws) → trim_space (sentence w ws) ≡ sentence w ws
unfolding trim_space
trim_space-sentence w ws h = ap trim_right (left w ws h.0) ∙ trim_right-sentence w ws h
  where
    left : (w : String) (ws : List String) → Word w → trim_left (sentence w ws) ≡ sentence w ws
    left String.[] ws h = absurd (cc h.1)
    left (String.◌∷◌ c w) [] h = trim_left-Solid c w h.0.0
    left (String.◌∷◌ c w) (x ∷ xs) h = unfold ◌⧺◌ in (trim_left-Solid c _ h.0.0)

module _ (upper lower : Char → Char) (checksum hash : String → ℕ) (b : Broker) (seq : ℕ)
    (topic : String) (partition follower offset max : ℤ) where
  abbrev rest : List String
  rest = itoa partition ∷ itoa follower ∷ itoa offset ∷ itoa max ∷ []

  rest-Word : All Word rest
  rest-Word =
      (number-Word partition, (number-Word follower, (number-Word offset, (number-Word max, tt))))

  parse_request-fetch :
      Word topic
      → map_text upper "BROKER_FETCH" ≡ "BROKER_FETCH"
      → parse_request upper
          (request_line seq "BROKER_FETCH" (fetch_text topic partition follower offset max))
        ≡ request (record {
          version = "V1";
          correlation_id = itoa (pos seq);
          command = "BROKER_FETCH";
          args = topic ∷ rest;
        })
  unfolding request_line fetch_text
  parse_request-fetch word fixed =
      let all : All Word (topic ∷ rest) = (word, rest-Word) in
      parse-line upper (itoa (pos seq)) "BROKER_FETCH" (sentence topic rest) (number-Word (pos seq))
        (itoa-Free "|" (pos seq) (λ d k. ground arith) refl) (fetch-Solid, refl) fetch-Free fixed
        (trim_space-sentence topic rest all) (sentence-nonempty topic rest word)
        (trim_right-sentence topic rest all)
      ∙ ap
          (λ args. request (record {
            version = "V1";
            correlation_id = itoa (pos seq);
            command = "BROKER_FETCH";
            args = args;
          }))
          (fields-sentence topic rest all)

  args-serve_fetch :
      IsInt64 partition
      → IsInt64 follower
      → IsInt64 offset
      → IsInt64 max
      → leb_ℤ max (pos 0) ≡ false
      → handle_broker_fetch (topic ∷ rest) b ≡ serve_fetch topic partition follower offset max b
  unfolding handle_broker_fetch fetch_args max_arg int_arg parse_int or_raise raise_if pure ◌>>=◌
  args-serve_fetch h₁ h₂ h₃ h₄ positive =
      rw
        (
          atoi-itoa partition h₁,
          atoi-itoa follower h₂,
          atoi-itoa offset h₃,
          atoi-itoa max h₄,
          positive,
        )
        refl

  -- The leader takes the request that a follower sends for the fetch that it is: it serves this fetch and
  -- answers under the request's number. The topic is one word, the numbers fit 64 bits, and at least one record
  -- is asked for.
  pub serve_line-fetch :
      (rounds : List Round)
      → Word topic
      → map_text upper "BROKER_FETCH" ≡ "BROKER_FETCH"
      → IsInt64 partition
      → IsInt64 follower
      → IsInt64 offset
      → IsInt64 max
      → leb_ℤ max (pos 0) ≡ false
      → serve_line upper lower checksum hash b rounds
          (request_line seq "BROKER_FETCH" (fetch_text topic partition follower offset max))
        ≡ respond (itoa (pos seq)) (serve_fetch topic partition follower offset max b)
  unfolding serve_line answer_to handle_request route routes
  serve_line-fetch rounds word fixed h₁ h₂ h₃ h₄ positive =
      rw (parse_request-fetch word fixed)
        (ap (respond (itoa (pos seq))) (args-serve_fetch h₁ h₂ h₃ h₄ positive))
