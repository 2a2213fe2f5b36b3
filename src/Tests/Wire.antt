-- ===== src/Tests/Wire.antt =====
-- Texts, hashes, warnings and responses at concrete inputs.
use unit3d_announce.Prelude.{true, ℕ, ◌≡◌, refl, some, none, List, [], ◌∷◌, ◌++◌, replicate, arith}
use unit3d_announce.Prelude.Bytes.{bytes}
use unit3d_announce.Prelude.Outcome.{ok, ◌>>=◌}
use unit3d_announce.Utils.{urlencoded_to_bytes, percent_sign_count, read_bytes}
use unit3d_announce.Utils.Url.{Accepts, urlencoded_to_bytes_iff}
use unit3d_announce.Model.Hash.{info_hash_from_str, info_hash_to_string}
use unit3d_announce.Model.Hash.RoundTrip.{from_str-to_string}
use unit3d_announce.Warning.{
  AnnounceWarning, rate_limit_exceeded, hit_download_slot_limit, connectivity_issue_detected,
  is_silent, into_message,
}
use unit3d_announce.Warning.Message.{told, joined, into_message_lem}
use unit3d_announce.Error.{AnnounceError, into_response}
use unit3d_announce.Error.Response.{into_response-encode, described}
use unit3d_announce.Bencode.{encode, has_sorted_keys}
use unit3d_announce.Announce.Answer.{Answer, response}
use unit3d_announce.Announce.Answer.Bytes.{response-encode, described as described_answer}

abbrev two_warnings : List AnnounceWarning
two_warnings = hit_download_slot_limit ∷ rate_limit_exceeded ∷ connectivity_issue_detected ∷ []

abbrev hash : List ℕ
hash = replicate 20 171

-- 20 zero bytes and a tail that stands for nothing are accepted.
abbrev tailed : List ℕ
tailed = replicate 20 48 ++ bytes "%x"

urlencoded_accepts_tail : urlencoded_to_bytes tailed ≡ ok (replicate 20 48)
unfolding urlencoded_to_bytes percent_sign_count read_bytes
urlencoded_accepts_tail = refl

urlencoded_example : Accepts tailed (replicate 20 48)
urlencoded_example = (urlencoded_to_bytes_iff tailed (replicate 20 48)).0 urlencoded_accepts_tail

info_hash_example : (info_hash_to_string hash >>= info_hash_from_str) ≡ ok hash
info_hash_example = from_str-to_string hash refl (omega arith)

message_example : into_message two_warnings ≡ some (joined (told two_warnings))
unfolding is_silent
message_example = into_message_lem two_warnings

error_example :
    into_response AnnounceError.torrent_is_postponed
    ≡ encode (described AnnounceError.torrent_is_postponed)
error_example = into_response-encode AnnounceError.torrent_is_postponed

abbrev small_answer : Answer
small_answer = record {
  complete = 1;
  downloaded = 2;
  incomplete = 3;
  interval = 1800;
  min_interval = 1700;
  peers_ipv4 = 10 ∷ 0 ∷ 0 ∷ 1 ∷ 26 ∷ 225 ∷ [];
  peers_ipv6 = [];
  warning_message = none;
}

answer_example :
    (response small_answer ≡ encode (described_answer small_answer))
    × (has_sorted_keys (described_answer small_answer) ≡ true)
answer_example = response-encode small_answer
