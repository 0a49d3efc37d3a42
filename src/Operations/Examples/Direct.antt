-- ===== src/Operations/Examples/Direct.antt =====
-- Tests and examples of direct commands.
use lich_agent_bridge.Base.{String, ◌≡◌, refl}
use lich_agent_bridge.Base.Text.{is_space, lstrip, rstrip, strip}
use lich_agent_bridge.Operations.Direct.{
  accepted, by_first, first_word, has_code, has_forbidden, lich_command,
  normalize_full_access_command, refused,
}
use lich_agent_bridge.Operations.Direct.Accepted.{IsDirect, accepted-IsDirect}

abbrev same : String → String
same s = s

go_accepted : normalize_full_access_command same "  ;go2 bank " ≡ accepted ";go2 bank"
unfolding normalize_full_access_command strip lstrip rstrip is_space has_forbidden has_code by_first
    lich_command first_word
go_accepted = refl

ruby_refused :
    normalize_full_access_command same ";e exit" ≡ refused "inline Ruby Lich commands are forbidden"
unfolding normalize_full_access_command strip lstrip rstrip is_space has_forbidden has_code by_first
    lich_command first_word
ruby_refused = refl

accepted-IsDirect_example :
    (normalize_full_access_command same "  ;go2 bank " ≡ accepted ";go2 bank"
      → (strip "  ;go2 bank " ≡ ";go2 bank") × IsDirect same ";go2 bank")
    × (IsDirect same (strip "  ;go2 bank ")
        → normalize_full_access_command same "  ;go2 bank " ≡ accepted (strip "  ;go2 bank "))
accepted-IsDirect_example = accepted-IsDirect same "  ;go2 bank " ";go2 bank"
