-- ===== src/Handler/Toy.antt =====
-- An instance of the JSON library for the tests. A body is JSON unless it is empty; it is an object
-- unless it begins with a digit, and that object asks for "Hi" in the voice that the body names.
use voxtral_server.Backend.{no_result}
use voxtral_server.Config.{defaults}
use voxtral_server.Pool.{success}
use voxtral_server.Voices.{catalog}
use voxtral_server.Handler.Speech.{HandlerDeps}
use voxtral_server.Handler.Json.{JsonApi, Parsed, parsed, parse_error}
use voxtral_server.Base.{
  Bool, true, false, none, some, [], ◌∷◌, ltb, if◌then◌else◌, Bytes, bytes, eq_bytes,
}

abbrev toy_parse : Bytes → Parsed Bytes
toy_parse [] = parse_error
toy_parse (c ∷ s) = parsed (c ∷ s)

abbrev is_object : Bytes → Bool
is_object [] = false
is_object (c ∷ s) = ltb b'9' c

abbrev toy_member : Bytes → Bytes → Bytes → Bytes
toy_member voice key default_value =
    if eq_bytes key (bytes "model")
    then bytes "voxtral-4b"
    else if eq_bytes key (bytes "input")
    then bytes "Hi"
    else if eq_bytes key (bytes "voice")
    then voice
    else default_value

abbrev pub toy : JsonApi
toy = record {
  Value = Bytes;
  parse = toy_parse;
  text_value = λ body key default_value.
      if is_object body then some (toy_member body key default_value) else none;
  float_value = λ body key default_value. if is_object body then some default_value else none;
  dump = λ doc. bytes "{}";
}

-- Every job succeeds, with three bytes of audio.
abbrev pub deps : HandlerDeps
deps = record {
  voice_catalog = some catalog;
  pool = some (record {
    is_accepting = true;
    depth_before = 0;
    submit = λ job. true;
    depth_after = 1;
    answer = λ job. success (record no_result { audio_data = 1 ∷ 2 ∷ 3 ∷ [] });
    depth_end = 0;
  });
  config = some defaults;
  synthesis_secs = 0;
}
