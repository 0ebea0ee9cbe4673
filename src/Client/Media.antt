-- ===== src/Client/Media.antt =====
-- custom_components/doorfast/client.py: `latest_video_frame` with its cache, and `latest_audio_chunk`
-- with its cursor. A raised exception is `none`; `raises` says for which statuses the HTTP library's
-- `raise_for_status` raises.
use doorfastforha.Prelude.{
  ℕ, zero, suc, ◌+◌, ◌-◌, ◌*◌, ◌/◌, ◌%◌, String, Bool, false, ◌||◌, ◌&&◌, not, List, [], ◌∷◌, ◌++◌,
  Option, none, some, if◌then◌else◌, ◌==◌, ltb, leb, all, length, Dict, lookup, string_eq, ◌>>=◌,
  is_some,
}
use doorfastforha.Value.{get, as_dict, positive, codes, codes_eq, is_digit, is_ascii}
use doorfastforha.Client.{
  DoorfastClient, same_nat, current_runtime_id, current_video_generation, current_audio_generation,
  clear_video_cache, video_request_is_current, clear_video_cache_for_request, clear_audio_cursor,
  audio_request_is_current, clear_audio_cursor_for_request,
}

-- `str(n)`, as code points: on fuel, in front of the digits that are done.
pub digits_from : ℕ → ℕ → List ℕ → List ℕ
digits_from zero n done = done
digits_from (suc f) n done =
    let done' = (n % 10 + 48) ∷ done in
    let rest = digits_from f (n / 10) done' in if ltb n 10 then done' else rest

unfoldable pub decimal : ℕ → List ℕ
unfolding digits_from
decimal n = digits_from (suc n) n []

-- `int(raw)` of digits.
abbrev pub read_digits : ℕ → List ℕ → ℕ
read_digits acc [] = acc
read_digits acc (c ∷ cs) = read_digits (acc * 10 + (c - 48)) cs

-- `_audio_header_int`.
unfoldable pub audio_header_int : Option String → Option ℕ
audio_header_int none = none
audio_header_int (some raw) =
    let cs = codes raw in
    if not (length cs == 0) && (is_ascii cs && all is_digit cs)
    then some (read_digits 0 cs)
    else none

pub record HttpReply : Type 0 where
  pub status : ℕ
  pub headers : Dict String String
  pub body : List ℕ

-- What a request for media carries: the runtime, the generation, and for audio the cursor.
pub record MediaRequest : Type 0 where
  pub runtime : String
  pub generation : ℕ
  pub previous : Option ℕ
  pub latest : ℕ
  pub etag : Option String

-- The request for the current frame.
unfoldable pub video_request : DoorfastClient → Option MediaRequest
video_request c = do
  runtime ← current_runtime_id c.status
  generation ← current_video_generation c.status
  some (record {
    runtime = runtime;
    generation = generation;
    previous = none;
    latest = 0;
    etag = if same_nat c.video_generation (some generation) then c.video_etag else none;
  })

-- With no current frame the cache is dropped, and nothing is sent.
unfoldable pub video_begin : DoorfastClient → DoorfastClient × Option MediaRequest
video_begin c = elim (video_request c) [ none ↦ (clear_video_cache c, none) | some r ↦ (c, some r) ]

-- The cached frame, if it is of the request's generation and that is current.
unfoldable pub cached_frame : MediaRequest → DoorfastClient → Option (List ℕ)
cached_frame r c =
    if video_request_is_current r.runtime r.generation c
      && same_nat c.video_generation (some r.generation)
    then c.video_frame
    else none

-- `X-Doorfast-Generation` is `str(generation)`.
abbrev pub has_generation : ℕ → HttpReply → Bool
has_generation g reply = elim (lookup "X-Doorfast-Generation" reply.headers) [
  | none ↦ false
  | some raw ↦ codes_eq (codes raw) (decimal g)
]

unfoldable pub keep_frame : MediaRequest → HttpReply → DoorfastClient → DoorfastClient
keep_frame r reply c = record c {
  video_generation = some r.generation;
  video_etag = lookup "ETag" reply.headers;
  video_frame = some reply.body;
}

-- A frame, or the cache of the request's generation is dropped.
unfoldable pub take_frame :
    MediaRequest → HttpReply → DoorfastClient → DoorfastClient × Option (List ℕ)
take_frame r reply c =
    if has_generation r.generation reply
      && (not (length reply.body == 0) && video_request_is_current r.runtime r.generation c)
    then (keep_frame r reply c, some reply.body)
    else (clear_video_cache_for_request r.runtime r.generation c, none)

-- What a request returns; None is `some none`.
unfoldable pub video_end :
    (ℕ → Bool)
    → MediaRequest
    → HttpReply
    → DoorfastClient
    → DoorfastClient × Option (Option (List ℕ))
video_end raises r reply c =
    if reply.status == 304 || reply.status == 503
    then (c, some (cached_frame r c))
    else if reply.status == 404 || reply.status == 409
    then (clear_video_cache_for_request r.runtime r.generation c, some none)
    else if raises reply.status
    then (c, none)
    else (let (d, frame) = take_frame r reply c in (d, some frame))

-- The cursor of the generation, if it has one.
abbrev pub cursor_of : ℕ → DoorfastClient → Option ℕ
cursor_of g c = if same_nat c.audio_generation (some g) then c.audio_revision else none

unfoldable pub audio_request : DoorfastClient → Option MediaRequest
audio_request c = do
  runtime ← current_runtime_id c.status
  generation ← current_audio_generation c.status
  audio ← as_dict (get c.status "audio")
  latest ← positive (get audio "snapshot_packet_count")
  let previous = cursor_of generation c
  some (record {
    runtime = runtime;
    generation = generation;
    previous = previous;
    latest = latest;
    etag = if is_some previous then c.audio_etag else none;
  })

unfoldable pub audio_begin : DoorfastClient → DoorfastClient × Option MediaRequest
audio_begin c = elim (audio_request c) [
  | none ↦ (clear_audio_cursor c, none)
  | some r ↦ (c, some r)
]

abbrev pub header : HttpReply → String → Option ℕ
header reply name = audio_header_int (lookup name reply.headers)

-- The revisions of the reply: the one before the chunk, and its own.
unfoldable pub reply_revisions : HttpReply → Option (ℕ × ℕ)
reply_revisions reply = do
  before ← header reply "X-Doorfast-Audio-Previous-Revision"
  own ← header reply "X-Doorfast-Audio-Revision"
  some (before, own)

-- The chunk follows the cursor, or is at least what the status had seen.
unfoldable pub continues : MediaRequest → ℕ → ℕ → Bool
continues r before own =
    ltb before own && elim r.previous [ none ↦ leb r.latest own | some cursor ↦ before == cursor ]

-- `f'"df-audio-{generation}-{revision}"'`.
abbrev pub audio_etag_of : ℕ → ℕ → List ℕ
audio_etag_of g revision =
    b'"' ∷ (codes "df-audio-" ++ (decimal g ++ (b'-' ∷ (decimal revision ++ b'"' ∷ []))))

abbrev pub own_etag : ℕ → ℕ → Option String → Option String
own_etag g revision none = none
own_etag g revision (some raw) =
    if codes_eq (codes raw) (audio_etag_of g revision) then some raw else none

unfoldable pub move_cursor : MediaRequest → ℕ → HttpReply → DoorfastClient → DoorfastClient
move_cursor r own reply c = record c {
  audio_generation = some r.generation;
  audio_revision = some own;
  audio_etag = own_etag r.generation own (lookup "ETag" reply.headers);
}

unfoldable pub is_chunk : MediaRequest → ℕ → ℕ → HttpReply → DoorfastClient → Bool
is_chunk r before own reply c =
    same_nat (header reply "X-Doorfast-Generation") (some r.generation)
    && (continues r before own
        && (not (length reply.body == 0)
            && audio_request_is_current r.runtime r.generation r.previous c))

-- A chunk, or the cursor of the request is dropped.
unfoldable pub take_chunk :
    MediaRequest → HttpReply → DoorfastClient → DoorfastClient × Option (List ℕ)
take_chunk r reply c =
    let refused = clear_audio_cursor_for_request r.runtime r.generation r.previous c in
    elim (reply_revisions reply) [
      | none ↦ (refused, none)
      | some (before, own) ↦
          if is_chunk r before own reply c
          then (move_cursor r own reply c, some reply.body)
          else (refused, none)
    ]

unfoldable pub audio_end :
    (ℕ → Bool)
    → MediaRequest
    → HttpReply
    → DoorfastClient
    → DoorfastClient × Option (Option (List ℕ))
audio_end raises r reply c =
    if reply.status == 304 || reply.status == 503
    then (c, some none)
    else if reply.status == 404 || reply.status == 409
    then (clear_audio_cursor_for_request r.runtime r.generation r.previous c, some none)
    else if raises reply.status
    then (c, none)
    else (let (d, chunk) = take_chunk r reply c in (d, some chunk))
