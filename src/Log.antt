-- ===== src/Log.antt =====
-- The log on Linux: include/kvik/log_level.hpp and src/linux/logger.cpp.
use kvik.Base.{
  ℕ, ◌≡◌, refl, ◌<◌, Bool, true, false, [], ◌∷◌, ◌++◌, Str, codes, if◌then◌else◌, ltb, arith, sym,
  ◌∙◌, ◌↔◌, dec_lt,
}

pub data LogLevel : Type 0 where
  debug info warn error off : LogLevel

abbrev pub level_code : LogLevel → ℕ
level_code LogLevel.debug = 0
level_code LogLevel.info = 1
level_code LogLevel.warn = 2
level_code LogLevel.error = 3
level_code LogLevel.off = 255

-- The first `fprintf`. `escape` is the control sequence that sets the colour.
abbrev escape : Str → Str
escape s = 27 ∷ s

abbrev pub prefix : Bool → LogLevel → Str
prefix true LogLevel.debug = codes "[D] "
prefix true LogLevel.info = codes "[I] "
prefix true LogLevel.warn = codes "[W] "
prefix true LogLevel.error = codes "[E] "
prefix true LogLevel.off = codes "[?] "
prefix false LogLevel.debug = escape (codes "[0;2m[D] ")
prefix false LogLevel.info = escape (codes "[0;36m[I] ")
prefix false LogLevel.warn = escape (codes "[0;33m[W] ")
prefix false LogLevel.error = escape (codes "[0;31m[E] ")
prefix false LogLevel.off = escape (codes "[0m[?] ")

-- What `logFunc` writes, with the colours compiled out or not; `text` is what `vfprintf` makes of
-- the format and its arguments.
unfoldable pub log_func : Bool → LogLevel → LogLevel → Str → Str → Str
log_func no_colors log_level msg_level log_tag text =
    if ltb (level_code msg_level) (level_code log_level)
    then []
    else prefix no_colors msg_level
      ++ (log_tag
          ++ (codes ": "
              ++ (text ++ (if no_colors then 10 ∷ [] else escape (codes "[0m") ++ 10 ∷ []))))

never_nil : (no_colors : Bool) (msg : LogLevel) (s : Str) → ¬ (prefix no_colors msg ++ s ≡ [])
never_nil true LogLevel.debug s e = cc
never_nil true LogLevel.info s e = cc
never_nil true LogLevel.warn s e = cc
never_nil true LogLevel.error s e = cc
never_nil true LogLevel.off s e = cc
never_nil false LogLevel.debug s e = cc
never_nil false LogLevel.info s e = cc
never_nil false LogLevel.warn s e = cc
never_nil false LogLevel.error s e = cc
never_nil false LogLevel.off s e = cc

-- Exactly the messages below the level are skipped.
log_func_iff :
    (no_colors : Bool) (level msg : LogLevel) (tag text : Str)
    → (log_func no_colors level msg tag text ≡ []) ↔ (level_code msg < level_code level)
unfolding log_func
log_func_iff no_colors level msg tag text =
    let body =
      tag
      ++ (codes ": "
          ++ (text ++ (if no_colors then 10 ∷ [] else escape (codes "[0m") ++ 10 ∷ []))) in
    elim (dec_lt (level_code msg) (level_code level)) [
      | yes h ↦ (
        λ e. h,
        λ k.
            if_same (ltb (level_code msg) (level_code level)) (prefix no_colors msg ++ body)
              (ground arith),
      )
      | no h ↦ (
        λ e. absurd (
            never_nil no_colors msg body (
              sym (
                if_other (ltb (level_code msg) (level_code level)) (prefix no_colors msg ++ body)
                  (ground arith))
              ∙ e)),
        λ k. absurd (h k),
      )
    ]
  where
    if_same : (b : Bool) (s : Str) → b ≡ true → (if b then [] else s) ≡ []
    if_same true s e = refl
    if_same false s e = cc

    if_other : (b : Bool) (s : Str) → b ≡ false → (if b then [] else s) ≡ s
    if_other false s e = refl
    if_other true s e = cc
