-- ===== src/Jobs/Preset.antt =====
-- services/orchestrator/internal/jobs/preset.go: the preset row and its validation. As in the
-- parent, a text type is its constants and one constructor for any other text. Go's `int` fields
-- are integers, since a request may carry negative ones.
pub mod Validity
use Prim.Native.String.{len}
use aether_edit.Prelude.{
  ℕ, zero, suc, ◌+◌, ◌-◌, ◌*◌, ◌/◌, ◌%◌, ◌^◌, ◌≤◌, ◌<◌, String, ◌≡◌, refl, sym, ap, ◌∙◌, subst, ◌≢◌,
  ◌↔◌, ◌⊎◌, inl, inr, Bool, true, false, not, ◌&&◌, ◌||◌, Option, none, some, List, [], ◌∷◌, ◌++◌,
  map, arith, str_eq, eq_iff, ltb, leb, ◌==◌, if◌then◌else◌, ltb→lt, lt→ltb, leb→le, ==_iff, tests,
  Bool-cases, Option-cases, length, get_elem?, set, length-append, get_or, take, drop, replicate,
  Result, ok, err, ◌>>=◌, ◌>>◌, guard,
}
use aether_edit.Prelude.Text.{codes, all_codes, is_alnum}
use aether_edit.Prelude.Int.{ℤ, pos, pos_part, neg_part, ltb_ℤ, eqb_ℤ}

pub data Container : Type 0 where
  mp4 mov hls dash webm : Container
  unknown_container : String → Container

-- `ValidContainer`
unfoldable pub valid_container : Container → Bool
valid_container mp4 = true
valid_container mov = true
valid_container hls = true
valid_container dash = true
valid_container webm = true
valid_container (unknown_container _) = false

pub data RateControlMode : Type 0 where
  crf vbr cbr : RateControlMode
  unknown_mode : String → RateControlMode

-- `ValidRateControlMode`
unfoldable pub valid_rate_control_mode : RateControlMode → Bool
valid_rate_control_mode crf = true
valid_rate_control_mode vbr = true
valid_rate_control_mode cbr = true
valid_rate_control_mode (unknown_mode _) = false

pub data VideoCodec : Type 0 where
  h264 hevc av1 : VideoCodec
  unknown_codec : String → VideoCodec

-- `ValidVideoCodec`
unfoldable pub valid_video_codec : VideoCodec → Bool
valid_video_codec h264 = true
valid_video_codec hevc = true
valid_video_codec av1 = true
valid_video_codec (unknown_codec _) = false

pub data SpeedPreset : Type 0 where
  p1 p2 p3 p4 p5 p6 p7 : SpeedPreset
  unknown_speed : String → SpeedPreset

-- `ValidSpeedPreset`
unfoldable pub valid_speed_preset : SpeedPreset → Bool
valid_speed_preset (unknown_speed _) = false
valid_speed_preset _ = true

pub record Rung : Type 0 where
  pub name : String
  pub width : ℤ
  pub height : ℤ

pub record Preset : Type 0 where
  pub id : String
  pub workspace_id : String
  pub name : String
  pub container : Container
  pub video_codec : VideoCodec
  pub rate_control : RateControlMode
  pub crf_value : ℤ
  pub bitrate_kbps : ℤ
  pub max_bitrate_kbps : ℤ
  pub gop_length : ℤ
  pub speed_preset : SpeedPreset
  pub ladder : List Rung

-- The messages of `Validate`, in the order of the tests; a rung's carry its index.
pub data PresetError : Type 0 where
  bad_name bad_container bad_codec webm_needs_av1 bad_mode : PresetError
  crf_range crf_excludes_bitrate : PresetError
  vbr_needs_bitrate vbr_max_below vbr_excludes_crf : PresetError
  cbr_needs_bitrate cbr_excludes_others : PresetError
  gop_range bad_speed ladder_size : PresetError
  rung_name rung_size rung_odd : ℕ → PresetError
  rung_duplicate : String → PresetError

-- The class [A-Za-z0-9._-].
unfoldable pub is_rung_char : ℕ → Bool
unfolding is_alnum
is_rung_char c = is_alnum c || (c == b'.' || (c == b'_' || c == b'-'))

-- `rungNamePattern`: ^[A-Za-z0-9][A-Za-z0-9._-]{0,31}$
unfoldable pub matches_rung_name : List ℕ → Bool
unfolding is_alnum is_rung_char all_codes
matches_rung_name [] = false
matches_rung_name (c ∷ cs) = is_alnum c && (leb (length cs) 31 && all_codes is_rung_char cs)

-- `seen[name]`
unfoldable pub seen_name : String → List String → Bool
seen_name n [] = false
seen_name n (m ∷ ms) = str_eq m n || seen_name n ms

-- Go's `%` keeps the dividend's sign; a remainder is 0 for x exactly when it is for -x.
abbrev pub is_even : ℤ → Bool
is_even z = (pos_part z + neg_part z) % 2 == 0

abbrev pub outside : ℤ → ℕ → ℕ → Bool
outside z lo hi = ltb_ℤ z (pos lo) || ltb_ℤ (pos hi) z

-- One round of the loop over the ladder.
unfoldable pub check_rung : List String → ℕ → Rung → Result PresetError (Unit {0})
unfolding matches_rung_name seen_name
check_rung seen i r = do
  guard (matches_rung_name (codes r.name)) (rung_name i)
  guard (not (seen_name r.name seen)) (rung_duplicate r.name)
  guard (not (outside r.width 16 8192 || outside r.height 16 8192)) (rung_size i)
  guard (is_even r.width && is_even r.height) (rung_odd i)

-- The loop over the ladder.
unfoldable pub check_ladder : List String → ℕ → List Rung → Result PresetError (Unit {0})
check_ladder seen i [] = ok tt
check_ladder seen i (r ∷ rs) = do check_rung seen i r; check_ladder (r.name ∷ seen) (i + 1) rs

-- `p.Container == ContainerWebM && p.VideoCodec != CodecAV1`
unfoldable pub webm_without_av1 : Container → VideoCodec → Bool
webm_without_av1 webm av1 = false
webm_without_av1 webm _ = true
webm_without_av1 _ _ = false

-- The `switch` on the rate control mode.
unfoldable pub check_rate : RateControlMode → ℤ → ℤ → ℤ → Result PresetError (Unit {0})
check_rate crf q rate top = do
  guard (not (outside q 0 51)) crf_range
  guard (eqb_ℤ rate (pos 0) && eqb_ℤ top (pos 0)) crf_excludes_bitrate
check_rate vbr q rate top = do
  guard (not (ltb_ℤ rate (pos 1))) vbr_needs_bitrate
  guard (eqb_ℤ top (pos 0) || not (ltb_ℤ top rate)) vbr_max_below
  guard (eqb_ℤ q (pos 0)) vbr_excludes_crf
check_rate cbr q rate top = do
  guard (not (ltb_ℤ rate (pos 1))) cbr_needs_bitrate
  guard (eqb_ℤ q (pos 0) && eqb_ℤ top (pos 0)) cbr_excludes_others
check_rate (unknown_mode _) q rate top = ok tt

-- `Preset.Validate`
unfoldable pub validate : Preset → Result PresetError (Unit {0})
validate p = do
  guard (not (len p.name == 0 || ltb 128 (len p.name))) bad_name
  guard (valid_container p.container) bad_container
  guard (valid_video_codec p.video_codec) bad_codec
  guard (not (webm_without_av1 p.container p.video_codec)) webm_needs_av1
  guard (valid_rate_control_mode p.rate_control) bad_mode
  check_rate p.rate_control p.crf_value p.bitrate_kbps p.max_bitrate_kbps
  guard (not (outside p.gop_length 1 600)) gop_range
  guard (valid_speed_preset p.speed_preset) bad_speed
  guard (not (length p.ladder == 0 || ltb 8 (length p.ladder))) ladder_size
  check_ladder [] 0 p.ladder
