-- ===== src/Examples/Probes.antt =====
-- The targets of an agent.
use nodepulse.Base.{
  String, ◌≡◌, refl, false, Option, none, some, List, [], ◌∷◌, if◌then◌else◌, str_eq, All,
}
use nodepulse.Base.Int.{ℤ, pos}
use nodepulse.Text.{is_space, trim_space, trim_left, trim_right, contains, has_prefix, split_at}
use nodepulse.Text.Split.{split_on}
use nodepulse.Targets.{
  TlsTarget, parse_entries, parse_targets, cut_equals, is_tls_version, split_last, window_of,
  parse_warn_window, warn_segment, with_segments, parse_tls_target, parse_tls_targets,
  parse_tcp_target, parse_tcp_targets,
}
use nodepulse.Targets.Windows.{IsTls, parse_tls_targets-All}
use Prim.Native.Char.{Char}

abbrev thirty : String → Option ℤ
thirty s = if str_eq s "30" then some (pos 30) else none

abbrev same_letter : Char → Char
same_letter c = c

abbrev two_targets : List TlsTarget
two_targets =
    record {
      address = "api.example.com:443";
      warn_before = 2592000000000000;
      min_tls = "1.3";
      insecure_skip_verify = false;
    }
    ∷ record { address = "b:1"; warn_before = 0; min_tls = ""; insecure_skip_verify = false }
    ∷ []

read_targets :
    parse_tls_targets thirty str_eq same_letter "api.example.com:443=30d:1.3,, b:1"
    ≡ some two_targets
unfolding parse_tls_targets parse_tls_target parse_targets parse_entries cut_equals is_tls_version
    split_last window_of parse_warn_window warn_segment with_segments str_eq trim_space trim_left
    trim_right is_space contains has_prefix split_at split_on
read_targets = refl

parse_tls_targets-All_example : All IsTls two_targets
parse_tls_targets-All_example =
    parse_tls_targets-All thirty str_eq same_letter "api.example.com:443=30d:1.3,, b:1" two_targets
      read_targets

read_tcp :
    parse_tcp_targets " db:5432 = ready ,"
    ≡ some (record { address = "db:5432"; expect_banner = "ready" } ∷ [])
unfolding parse_tcp_targets parse_tcp_target parse_targets parse_entries cut_equals trim_space
    trim_left trim_right is_space split_at split_on
read_tcp = refl

no_address : parse_tcp_targets "a:1,=x" ≡ none
unfolding parse_tcp_targets parse_tcp_target parse_targets parse_entries cut_equals trim_space
    trim_left trim_right is_space split_at split_on
no_address = refl
