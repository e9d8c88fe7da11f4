-- ===== src/WorkPool/Config.antt =====
-- workpool/options.go, and the correction of a configuration in workpool/workpool.go. An int or a duration may be
-- negative. The thresholds are floating-point numbers, and are left out with WithScaleThresholds; so is the log.
use fyer_kit.Prelude.{ℕ, List, [], ◌∷◌, ltb, if◌then◌else◌}
use fyer_kit.Prelude.Word.{ℤ, pos, negsuc}

pub record WorkPoolConfig : Type 0 where
  pub initial_workers : ℕ
  pub min_workers : ℕ
  pub max_workers : ℕ
  pub queue_capacity : ℕ
  pub default_task_timeout : ℕ
  pub scale_interval : ℕ

unfoldable pub default_config : WorkPoolConfig
default_config = record {
  initial_workers = 4;
  min_workers = 1;
  max_workers = 100;
  queue_capacity = 1000;
  default_task_timeout = 0;
  scale_interval = 5_000_000_000;
}

-- `if count > 0 { ... }`
abbrev pub if_positive : ℤ → (ℕ → WorkPoolConfig → WorkPoolConfig) → WorkPoolConfig → WorkPoolConfig
if_positive (pos n) f c = if ltb 0 n then f n c else c
if_positive (negsuc n) f c = c

unfoldable pub with_initial_workers : ℤ → WorkPoolConfig → WorkPoolConfig
with_initial_workers count = if_positive count λ n c. record c { initial_workers = n }

unfoldable pub with_min_workers : ℤ → WorkPoolConfig → WorkPoolConfig
with_min_workers count = if_positive count λ n c. record c { min_workers = n }

unfoldable pub with_max_workers : ℤ → WorkPoolConfig → WorkPoolConfig
with_max_workers count = if_positive count λ n c. record c { max_workers = n }

unfoldable pub with_queue_capacity : ℤ → WorkPoolConfig → WorkPoolConfig
with_queue_capacity capacity = if_positive capacity λ n c. record c { queue_capacity = n }

unfoldable pub with_default_task_timeout : ℤ → WorkPoolConfig → WorkPoolConfig
with_default_task_timeout (pos t) c = record c { default_task_timeout = t }
with_default_task_timeout (negsuc t) c = c

unfoldable pub with_scale_interval : ℤ → WorkPoolConfig → WorkPoolConfig
with_scale_interval interval = if_positive interval λ n c. record c { scale_interval = n }

unfoldable pub with_fixed_pool_size : ℤ → WorkPoolConfig → WorkPoolConfig
with_fixed_pool_size size =
    if_positive size λ n c. record c { initial_workers = n; min_workers = n; max_workers = n }

unfoldable pub apply_options :
    List (WorkPoolConfig → WorkPoolConfig) → WorkPoolConfig → WorkPoolConfig
apply_options [] c = c
apply_options (option ∷ options) c = apply_options options (option c)

unfoldable pub raise_initial : WorkPoolConfig → WorkPoolConfig
raise_initial c =
    if ltb c.initial_workers c.min_workers then record c { initial_workers = c.min_workers } else c

unfoldable pub raise_max : WorkPoolConfig → WorkPoolConfig
raise_max c =
    if ltb c.max_workers c.initial_workers then record c { max_workers = c.initial_workers } else c

-- The corrections of New.
unfoldable pub corrected : WorkPoolConfig → WorkPoolConfig
corrected c = raise_max (raise_initial c)
