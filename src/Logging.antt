-- ===== src/Logging.antt =====
-- `configure_logging` of backend/app/logging_setup.py: what it hands to `logging` and `structlog`,
-- which are other packages. `getattr(logging, …)` is a parameter.
use ims_prakash.Base.{
  ℕ, ◌-◌, ◌≡◌, refl, Bool, true, ◌&&◌, Option, none, some, List, [], ◌∷◌, map, leb, if◌then◌else◌,
  arith,
}
use ims_prakash.Text.{Text, codes}

pub data Processor : Type 0 where
  merge_contextvars add_log_level stack_info_renderer format_exc_info json_renderer : Processor
  -- `TimeStamper(fmt, utc)`.
  time_stamper : Text → Bool → Processor

-- The keyword arguments of `logging.basicConfig` and of `structlog.configure`. Lines go to the
-- standard output, in a dict, by a `PrintLogger`.
pub record LogSettings (Level : Type 0) : Type 0 where
  pub format : Text
  pub level : Level
  pub processors : List Processor
  pub wrapper_level : Level
  pub cache_logger_on_first_use : Bool

abbrev upper_code : ℕ → ℕ
upper_code c = if leb b'a' c && leb c b'z' then c - 32 else c

-- `str.upper` on ASCII.
unfoldable pub upper : Text → Text
upper t = map upper_code t

-- The module `logging`: its attributes, and `logging.INFO`.
pub record LoggingModule : Type 1 where
  pub Attribute : Type 0
  pub getattr : Text → Option Attribute
  pub info : Attribute

abbrev or_default : {A : Type 0} → Option A → A → A
or_default none a = a
or_default (some b) a = b

unfoldable pub log_level : (m : LoggingModule) → Text → m.Attribute
unfolding upper
log_level m level = or_default (m.getattr (upper level)) m.info

unfoldable pub configure_logging : (m : LoggingModule) → Text → LogSettings m.Attribute
unfolding log_level
configure_logging m level =
    let chosen = log_level m level in
    record {
      format = codes "%(message)s";
      level = chosen;
      processors =
          merge_contextvars
          ∷ add_log_level
          ∷ time_stamper (codes "iso") true
          ∷ stack_info_renderer
          ∷ format_exc_info
          ∷ json_renderer
          ∷ [];
      wrapper_level = chosen;
      cache_logger_on_first_use = true;
    }

upper_code-upper_code : (c : ℕ) → upper_code (upper_code c) ≡ upper_code c
upper_code-upper_code c = ground arith

upper-upper : (t : Text) → upper (upper t) ≡ upper t
unfolding upper
upper-upper [] = refl
upper-upper (c ∷ t) = rw (upper_code-upper_code c, upper-upper t)

-- The case of the level's name does not matter.
configure_logging-upper :
    (m : LoggingModule) (level : Text)
    → configure_logging m (upper level) ≡ configure_logging m level
unfolding configure_logging log_level
configure_logging-upper m level = rw (upper-upper level)
