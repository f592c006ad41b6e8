-- ===== src/Options.antt =====
-- scheduler_triton_options.h of schedulers/triton/include, and the plugin entry point `factory` of
-- schedulers/triton/lib/scheduler_triton.cc, lines 52 to 71. yaml-cpp and `gr::prefs` are
-- parameters: what a key of the options reads as, and what a preference is.
use text.Mathlib.Text.{◌==◌}
use gr4_torchdsp.Prelude.{ℕ, ◌≡◌, refl, Bool, true, String, Option, none, some, if◌then◌else◌}
use gr4_torchdsp.Prelude.Int.{ℤ, pos, to_size}

pub record SchedulerTritonOptions : Type 0 where
  pub name : String
  pub default_buffer_size : ℕ
  pub flush : Bool
  pub flush_count : ℕ
  pub flush_sleep_ms : ℕ

-- The member initialisers of the struct.
abbrev pub default_options : SchedulerTritonOptions
default_options = record {
  name = "triton";
  default_buffer_size = 32768;
  flush = true;
  flush_count = 8;
  flush_sleep_ms = 10;
}

-- `opt_yaml[key]` read at each of the types that `factory` asks for; `none` where the key is absent
-- or does not convert, so that `as<T>(fallback)` gives the fallback.
pub record OptYaml : Type 0 where
  pub as_size : String → Option ℕ
  pub as_long : String → Option ℤ
  pub as_bool : String → Option Bool
  pub as_string : String → Option String

-- `gr::prefs::get_long` and `get_bool`, by section, key and default.
pub record Prefs : Type 0 where
  pub get_long : String → String → ℤ → ℤ
  pub get_bool : String → String → Bool → Bool

abbrev as_or {ℓ} : {A : Type ℓ} → Option A → A → A
as_or none d = d
as_or (some a) d = a

-- A `long` that is stored in a `size_t` is converted; both have 64 bits.
unfoldable pub factory : OptYaml → Prefs → SchedulerTritonOptions
unfolding to_size
factory y p = record {
  name = as_or (y.as_string "name") "triton";
  default_buffer_size =
      as_or (y.as_size "buffer_size")
        (to_size (p.get_long "scheduler.triton" "default_buffer_size" (pos 32768)));
  flush = as_or (y.as_bool "flush") (p.get_bool "scheduler.triton" "flush" true);
  flush_count =
      to_size
        (as_or (y.as_long "flush_count") (p.get_long "scheduler.triton" "flush_count" (pos 8)));
  flush_sleep_ms =
      to_size
        (as_or (y.as_long "flush_count") (p.get_long "scheduler.triton" "flush_count" (pos 8)));
}

-- Preferences that are not set.
abbrev pub no_prefs : Prefs
no_prefs = record { get_long = λ s k d. d; get_bool = λ s k d. d }

abbrev pub empty_yaml : OptYaml
empty_yaml = record {
  as_size = λ k. none;
  as_long = λ k. none;
  as_bool = λ k. none;
  as_string = λ k. none;
}

-- The options with one more `long` written under a key.
abbrev pub write_long : String → ℤ → OptYaml → OptYaml
write_long key v y = record y { as_long = λ k. if k == key then some v else y.as_long k }

-- Writing `flush_sleep_ms` in the options changes nothing at all, while writing `flush_count` sets
-- the time to sleep between two rounds of flushing as well as the count of rounds.
pub factory-flush_sleep_ms :
    (y : OptYaml) (p : Prefs) (v : ℤ)
    → (factory (write_long "flush_sleep_ms" v y) p ≡ factory y p)
      × ((factory (write_long "flush_count" v y) p).flush_sleep_ms ≡ to_size v)
      × ((factory (write_long "flush_count" v y) p).flush_count ≡ to_size v)
unfolding factory
factory-flush_sleep_ms y p v = (refl, refl, refl)

-- With nothing set, `factory` gives the struct's defaults but for that time: 8 where it has 10.
factory-defaults : factory empty_yaml no_prefs ≡ record default_options { flush_sleep_ms = 8 }
unfolding factory
factory-defaults = refl
