-- ===== src/Api/Query/UnknownStatus.antt =====
-- A status that the enumeration lacks, from the query of listSignalMessages down to the statement.
use go_signalium.Base.{◌≡◌, refl, ap, ◌∙◌, Bool, true, false, Option, some, ℕ}
use go_signalium.Base.Text.{Text}
use go_signalium.Domain.{err, internal_service_error}
use go_signalium.Domain.StatusText.{scan, is_known}
use go_signalium.Repo.{Table}
use go_signalium.Repo.Messages.{Link, up, down, lost}
use go_signalium.Repo.Listing.{is_refused, list, list_rows}
use go_signalium.Handler.{list_signal_messages, list_filters, map_to_conjure_error}
use go_signalium.Api.Status.{conjure_to_domain_status, filter_of, filter-known}
use go_signalium.Api.Query.{
  done, failed, Values, ListArgs, list_args, handle_list_signal_messages, list_query,
}

refused_filter :
    (a : ListArgs) (s : Text)
    → a.status ≡ some s
    → is_known (scan s) ≡ false
    → is_refused (list_filters (list_query a)).status ≡ true
unfolding list_filters list_query filter_of
refused_filter a s e h =
    ap (λ o. is_refused (conjure_to_domain_status o)) e ∙ ap is_refused (filter-known s) ∙ rw h refl

refused_list :
    (ilike : Text → Text → Bool) (link link' : Link) (a : ListArgs) (t t' : Table)
    → is_refused (list_filters (list_query a)).status ≡ true
    → list_signal_messages ilike link link' (list_query a) t t' ≡ err internal_service_error
unfolding list_signal_messages list list_rows map_to_conjure_error
refused_list ilike up link' a t t' h = rw (h, list_signal_messages) refl
refused_list ilike down link' a t t' h = refl
refused_list ilike lost link' a t t' h = refl

-- A query that can be read and whose status is none of the enumeration, in any case of its letters, is
-- not refused as an invalid argument: whatever the table and the links, it is answered with
-- InternalServiceError.
pub unknown_status :
    (ilike : Text → Text → Bool) (parse_date_time : Text → Option ℕ) (unicode : Text → Text)
    (link link' : Link) (t t' : Table) (v : Values) (a : ListArgs) (s : Text)
    → list_args parse_date_time unicode v ≡ done a
    → a.status ≡ some s
    → is_known (scan s) ≡ false
    → handle_list_signal_messages parse_date_time unicode
        (λ b. list_signal_messages ilike link link' (list_query b) t t')
        v
      ≡ failed internal_service_error
unfolding handle_list_signal_messages
unknown_status ilike parse_date_time unicode link link' t t' v a s q e h =
    rw q (rw (refused_list ilike link link' a t t' (refused_filter a s e h)) refl)
