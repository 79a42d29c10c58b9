-- ===== src/Tests/Wire.antt =====
-- The HTTP interface and the frames on the socket.
use go_signalium.Base.{◌≡◌, refl, true, Option, none, some, [], ◌∷◌, ℕ, arith}
use go_signalium.Base.Text.{Text, codes, is_set, text_eq}
use go_signalium.Base.Int.{pos, negsuc}
use go_signalium.Domain.{ok, internal_service_error}
use go_signalium.Domain.StatusText.{scan}
use go_signalium.Repo.Messages.{up}
use go_signalium.Handler.{list_signal_messages}
use go_signalium.Api.Status.{unmarshal_text, to_upper}
use go_signalium.Api.Query.{
  done, failed, Values, get, ListArgs, list_args, handle_list_signal_messages, query_params,
  list_query,
}
use go_signalium.Api.Query.RoundTrip.{list_round_trip}
use go_signalium.Api.Query.UnknownStatus.{unknown_status}
use go_signalium.Api.Errors.Types.{Kind}
use go_signalium.Api.Errors.Types
use go_signalium.Api.Errors.{Instance, marshal, client_decode, known}
use go_signalium.Api.Errors.RoundTrip.{uncaused, decode-marshal}
use go_signalium.Tests.Data.{table}
use go_signalium.Tests.Codec.{codec, codec-IsLossless}

-- A date as the text of one byte.
abbrev print_date : ℕ → Text
print_date t = t ∷ []

abbrev parse_date : Text → Option ℕ
parse_date [] = none
parse_date (t ∷ rest) = some t

abbrev same_text : Text → Text
same_text t = t

abbrev asked : ListArgs
asked = record {
  q = some [];
  limit = some (pos 20);
  offset = some (negsuc 2);
  created_at_from = some 5;
  created_at_to = none;
  status = some (codes "sent");
  attempts = none;
}

list_round_trip_example :
    handle_list_signal_messages parse_date same_text (λ a. ok a) (query_params print_date asked)
    ≡ done (record asked { q = none; status = some (codes "SENT") })
unfolding to_upper
list_round_trip_example =
    list_round_trip print_date parse_date same_text (λ v. v) (λ a. ok a) asked (λ k v. refl)
      (λ t. (refl, unfold is_set in refl)) (omega arith, omega arith, tt)

-- ?status=foo
abbrev foo : Values
foo = (codes "status", codes "foo") ∷ []

abbrev of_foo : ListArgs
of_foo = record {
  q = none;
  limit = none;
  offset = none;
  created_at_from = none;
  created_at_to = none;
  status = some (codes "FOO");
  attempts = none;
}

unknown_status_example :
    handle_list_signal_messages parse_date same_text
      (λ b. list_signal_messages (λ s t. true) up up (list_query b) table table)
      foo
    ≡ failed internal_service_error
unfolding list_args get text_eq unmarshal_text scan
unknown_status_example =
    unknown_status (λ s t. true) parse_date same_text up up table table foo of_foo (codes "FOO")
      refl refl refl

-- The daemon's HTTP side is not reachable.
abbrev unreachable : Instance
unreachable = record {
  kind = Kind.signal_cli_unavailable;
  fields = (codes "localhost", pos 8080);
  instance_id = codes "1";
  cause_safe = (codes "port", Types.text (codes "?")) ∷ [];
  cause_unsafe = [];
}

decode-marshal_example :
    client_decode codec (marshal codec unreachable) ≡ some (known (uncaused unreachable))
decode-marshal_example = decode-marshal codec unreachable codec-IsLossless
