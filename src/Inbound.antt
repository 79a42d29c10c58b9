-- ===== src/Inbound.antt =====
-- internal/service/inbound_listener.go and internal/repo/inbound.go: the envelopes that the daemon
-- reports, and the table signalium.inbound_signal_messages. The codecs of encoding/json, which work
-- by reflection, are parameters.
pub mod Redelivery
use go_signalium.Base.{
  ℕ, Bool, true, false, not, ◌&&◌, ◌||◌, Option, none, some, List, [], ◌∷◌, ◌==◌, if◌then◌else◌,
}
use go_signalium.Base.Text.{Text, codes, text_eq, is_set}
use go_signalium.Base.Int.{ℤ, pos, negsuc}
use go_signalium.Domain.{Err, Result, ok, err, unavailable}
use go_signalium.Repo.Messages.{Link, up, down, lost}

pub record EnvAttachment : Type 0 where
  pub id : Text
  pub content_type : Text
  pub size : ℤ
  pub filename : Text

-- envData, and envSyncSent, which has the same fields. `group_info` is the id of envGroupInfo.
pub record EnvData : Type 0 where
  pub message : Option Text
  pub attachments : List EnvAttachment
  pub group_info : Option Text

-- inboundEnvelope. The variants without fields are present or not.
pub record InboundEnvelope : Type 0 where
  pub source : Text
  pub source_uuid : Option Text
  pub timestamp : ℤ
  pub data_message : Option EnvData
  pub edit : Option (Option EnvData)
  pub receipt : Bool
  pub sync : Option (Option EnvData)
  pub typing : Bool
  pub call : Bool

-- InboundIgnoreConfig
pub record Ignore : Type 0 where
  pub typing : Bool
  pub receipt : Bool
  pub sync_message : Bool
  pub call_message : Bool

pub record Event : Type 0 where
  pub method : Text
  pub params : Text

-- json.Unmarshal into the wrapper and into the envelope, and json.Marshal of the attachments.
pub record Codec : Type 0 where
  pub wrapper : Text → Option Text
  pub envelope : Text → Option InboundEnvelope
  pub marshal : List EnvAttachment → Option Text

pub record InsertInboundParams : Type 0 where
  pub source : Text
  pub source_uuid : Option Text
  pub source_timestamp : ℤ
  pub group_id : Option Text
  pub content : Option Text
  pub attachments : Text
  pub raw : Text

pub record InboundRow : Type 0 where
  pub params : InsertInboundParams
  pub received_at : ℕ

abbrev pub InboundTable : Type 0
InboundTable = List InboundRow

abbrev pub is_some {ℓ} : {A : Type ℓ} → Option A → Bool
is_some none = false
is_some (some a) = true

-- filtered
unfoldable pub filtered : Ignore → InboundEnvelope → Bool
filtered ignore e =
    ignore.typing && e.typing
    || (ignore.receipt && e.receipt
        || (ignore.sync_message && is_some e.sync || ignore.call_message && e.call))

abbrev flat : Option (Option EnvData) → Option EnvData
flat none = none
flat (some d) = d

-- A text of the variant that is there and not empty.
abbrev text_of : (EnvData → Option Text) → Option EnvData → Option Text
text_of f none = none
text_of f (some d) = if is_set (f d) then f d else none

abbrev or_else : Option Text → Option Text → Option Text
or_else none b = b
or_else (some a) b = some a

-- groupIDOf, contentOf, attachmentsOf: the first variant that has one.
unfoldable pub group_id_of : InboundEnvelope → Option Text
group_id_of e = or_else (text_of (λ d. d.group_info) e.data_message) (
    or_else (text_of (λ d. d.group_info) (flat e.edit)) (text_of (λ d. d.group_info) (flat e.sync)))

unfoldable pub content_of : InboundEnvelope → Option Text
content_of e =
    or_else (text_of (λ d. d.message) e.data_message)
      (or_else (text_of (λ d. d.message) (flat e.edit)) (text_of (λ d. d.message) (flat e.sync)))

abbrev files_of : Option EnvData → List EnvAttachment
files_of none = []
files_of (some d) = d.attachments

abbrev first_files : List EnvAttachment → List EnvAttachment → List EnvAttachment
first_files [] b = b
first_files (x ∷ a) b = x ∷ a

unfoldable pub attachments_of : InboundEnvelope → List EnvAttachment
attachments_of e =
    first_files (files_of e.data_message)
      (first_files (files_of (flat e.edit)) (files_of (flat e.sync)))

-- parseEnvelope
unfoldable pub parse_envelope : Codec → Text → Option (InboundEnvelope × Text)
parse_envelope c params = elim (c.wrapper params) [
  | none ↦ none
  | some raw ↦
      if is_set (some raw)
      then elim (c.envelope raw) [ none ↦ none | some e ↦ some (e, raw) ]
      else none
]

abbrev is_zero : ℤ → Bool
is_zero (pos n) = n == 0
is_zero (negsuc n) = false

-- env.Source == "" || env.Timestamp == 0
abbrev pub is_anonymous : Text → ℤ → Bool
is_anonymous source timestamp = not (is_set (some source)) || is_zero timestamp

abbrev params_of : InboundEnvelope → Text → Text → InsertInboundParams
params_of e raw attachments = record {
  source = e.source;
  source_uuid = e.source_uuid;
  source_timestamp = e.timestamp;
  group_id = group_id_of e;
  content = content_of e;
  attachments = attachments;
  raw = raw;
}

-- handle, up to the insert: what is to be inserted, if anything is.
unfoldable pub to_capture : Codec → Ignore → InboundEnvelope × Text → Option InsertInboundParams
unfolding filtered group_id_of content_of attachments_of
to_capture c ignore (e, raw) =
    if filtered ignore e || is_anonymous e.source e.timestamp
    then none
    else elim (c.marshal (attachments_of e)) [
      | none ↦ none
      | some attachments ↦ some (params_of e raw attachments)
    ]

unfoldable pub captured : Codec → Ignore → Event → Option InsertInboundParams
unfolding parse_envelope to_capture
captured c ignore ev =
    if text_eq ev.method (codes "receive")
    then elim (parse_envelope c ev.params) [ none ↦ none | some p ↦ to_capture c ignore p ]
    else none

abbrev pub is_same_timestamp : ℤ → ℤ → Bool
is_same_timestamp (pos m) (pos n) = m == n
is_same_timestamp (negsuc m) (negsuc n) = m == n
is_same_timestamp (pos m) (negsuc n) = false
is_same_timestamp (negsuc m) (pos n) = false

-- UNIQUE (source, source_timestamp)
abbrev pub is_redelivery : InsertInboundParams → InsertInboundParams → Bool
is_redelivery a b =
    text_eq a.source b.source && is_same_timestamp a.source_timestamp b.source_timestamp

unfoldable pub has_delivery : InsertInboundParams → InboundTable → Bool
has_delivery p [] = false
has_delivery p (r ∷ t) = is_redelivery p r.params || has_delivery p t

-- InsertInbound: ON CONFLICT (source, source_timestamp) DO NOTHING, with the number of rows.
unfoldable pub insert_inbound : ℕ → InsertInboundParams → InboundTable → ℕ × InboundTable
unfolding has_delivery
insert_inbound now p t =
    if has_delivery p t then (0, t) else (1, record { params = p; received_at = now } ∷ t)

-- Insert of the repo: true where a row was inserted.
unfoldable pub insert : Link → ℕ → InsertInboundParams → InboundTable → Result Bool × InboundTable
unfolding insert_inbound
insert up now p t = let (n, t') = insert_inbound now p t in (ok (not (n == 0)), t')
insert down now p t = (err unavailable, t)
insert lost now p t = (err unavailable, (insert_inbound now p t).1)

-- handle: what comes of the insert is logged only.
unfoldable pub handle : Codec → Ignore → Link → ℕ → Event → InboundTable → InboundTable
unfolding captured insert
handle c ignore link now ev t = elim (captured c ignore ev) [
  | none ↦ t
  | some p ↦ (insert link now p t).1
]

-- An event, with what the database makes of its handling.
pub record Delivery : Type 0 where
  pub event : Event
  pub link : Link
  pub now : ℕ

-- run, over the events until the channel is closed or the context done.
unfoldable pub run : Codec → Ignore → List Delivery → InboundTable → InboundTable
unfolding handle
run c ignore [] t = t
run c ignore (d ∷ ds) t = run c ignore ds (handle c ignore d.link d.now d.event t)
