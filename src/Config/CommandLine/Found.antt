-- ===== src/Config/CommandLine/Found.antt =====
-- Which configuration file `FindConfigPath` of src/config/command_line.cpp finds.
use tinykvcache.Prelude.{
  ◌≡◌, refl, ◌∙◌, Bool, true, false, List, [], ◌∷◌, ◌++◌, Option, none, some, length, ◌||◌, ◌==◌,
}
use tinykvcache.Prelude.Equality.{bytes_beq}
use tinykvcache.Prelude.Text.{codes}
use tinykvcache.Core.FrameCodec.{Bytes}
use tinykvcache.Config.{Outcome, valid, invalid, and_then, duplicate_config_path}
use tinykvcache.Config.CommandLine.{
  require_next_value, starts_with, matches_option, parse_inline_value, inline_or_mismatch,
  read_option_value, path_once, find_argument, find_config_path, find_loop,
}
use tinykvcache.Config.CommandLine.Unroll.{then_cong, find_from, find_from_lem}
use tinykvcache.Config.CommandLine.Rendered.{
  Setting, config_is, host_is, port_is, sub_reactors_are, poller_is, log_level_is, option_of,
  text_of, render,
}

-- The file that a setting names: it may not be named twice.
abbrev pub named_by : Option Bytes → Setting → Outcome (Option Bytes)
named_by none (config_is p) = valid (some p)
named_by (some q) (config_is p) = invalid duplicate_config_path
named_by path s = valid path

-- The one file that the settings name.
abbrev pub named : Option Bytes → List (Bool × Setting) → Outcome (Option Bytes)
named path [] = valid path
named path ((form, s) ∷ ss) = and_then (named_by path s) (λ path. named path ss)

-- An argument that `FindConfigPath` passes over.
abbrev pub IsPassed : Bytes → Type 0
IsPassed v =
    (bytes_beq v (codes "--config") || bytes_beq v (codes "-c") ≡ false)
    × (matches_option v (codes "--config") ≡ false)

-- A value that stands alone is not one that `FindConfigPath` takes for an option; the value of
-- `--config` is not empty.
abbrev pub IsReadable : Bool × Setting → Type 0
IsReadable (form, config_is path) = (length path == 0) ≡ false
IsReadable (true, s) = Unit {0}
IsReadable (false, s) = IsPassed (text_of s)

abbrev pub AllReadable : List (Bool × Setting) → Type 0
AllReadable [] = Unit {0}
AllReadable (s ∷ ss) = IsReadable s × AllReadable ss

find_passed :
    (path : Option Bytes) (v : Bytes) (rest : List Bytes)
    → IsPassed v
    → find_from path (v ∷ rest) ≡ find_from path rest
unfolding find_argument and_then
find_passed path v rest (h, k) = rw (find_from_lem path v rest, h, k)

-- What the loop does with a path that it has read.
abbrev once : Option Bytes → Bytes → List Bytes → Outcome (Option Bytes)
once path p rest = and_then (path_once path (p, rest)) (λ r. find_from r.0 r.1)

find_separate :
    (path : Option Bytes) (p : Bytes) (rest : List Bytes)
    → (length p == 0) ≡ false
    → find_from path (codes "--config" ∷ p ∷ rest) ≡ once path p rest
unfolding find_argument and_then require_next_value
find_separate path p rest h = rw (find_from_lem path (codes "--config") (p ∷ rest), h)

find_joined :
    (path : Option Bytes) (p : Bytes) (rest : List Bytes)
    → (length p == 0) ≡ false
    → find_from path ((codes "--config" ++ (b'=' ∷ p)) ∷ rest) ≡ once path p rest
unfolding find_argument and_then matches_option starts_with read_option_value parse_inline_value
    inline_or_mismatch
find_joined path p rest h = rw (find_from_lem path (codes "--config" ++ (b'=' ∷ p)) rest, h)

-- A setting that names no file is passed over, in either form.
abbrev names_file : Setting → Bool
names_file (config_is path) = true
names_file s = false

option-IsPassed : (s : Setting) → names_file s ≡ false → IsPassed (option_of s)
unfolding matches_option starts_with
option-IsPassed (config_is path) h = cc
option-IsPassed (host_is host) h = (refl, refl)
option-IsPassed (port_is n) h = (refl, refl)
option-IsPassed (sub_reactors_are n) h = (refl, refl)
option-IsPassed (poller_is b) h = (refl, refl)
option-IsPassed (log_level_is l) h = (refl, refl)

joined-IsPassed :
    (s : Setting) → names_file s ≡ false → IsPassed (option_of s ++ (b'=' ∷ text_of s))
unfolding matches_option starts_with
joined-IsPassed (config_is path) h = cc
joined-IsPassed (host_is host) h = (refl, refl)
joined-IsPassed (port_is n) h = (refl, refl)
joined-IsPassed (sub_reactors_are n) h = (refl, refl)
joined-IsPassed (poller_is b) h = (refl, refl)
joined-IsPassed (log_level_is l) h = (refl, refl)

find_named :
    (path : Option Bytes) (p : Bytes) (rest : List Bytes)
    → once path p rest ≡ and_then (named_by path (config_is p)) (λ path. find_from path rest)
unfolding path_once and_then
find_named none p rest = refl
find_named (some q) p rest = refl

unnamed :
    (path : Option Bytes) (s : Setting) (f : Option Bytes → Outcome (Option Bytes))
    → names_file s ≡ false
    → f path ≡ and_then (named_by path s) f
unfolding and_then
unnamed path (config_is p) f h = cc
unnamed none (host_is host) f h = refl
unnamed (some q) (host_is host) f h = refl
unnamed none (port_is n) f h = refl
unnamed (some q) (port_is n) f h = refl
unnamed none (sub_reactors_are n) f h = refl
unnamed (some q) (sub_reactors_are n) f h = refl
unnamed none (poller_is b) f h = refl
unnamed (some q) (poller_is b) f h = refl
unnamed none (log_level_is l) f h = refl
unnamed (some q) (log_level_is l) f h = refl

-- What is left of a setting that names no file.
find_joined_other :
    (path : Option Bytes) (s : Setting) (rest : List Bytes)
    → names_file s ≡ false
    → find_from path ((option_of s ++ (b'=' ∷ text_of s)) ∷ rest)
      ≡ and_then (named_by path s) (λ path. find_from path rest)
find_joined_other path s rest k =
    find_passed path _ rest (joined-IsPassed s k) ∙ unnamed path s (λ path. find_from path rest) k

find_separate_other :
    (path : Option Bytes) (s : Setting) (rest : List Bytes)
    → names_file s ≡ false
    → IsPassed (text_of s)
    → find_from path (option_of s ∷ text_of s ∷ rest)
      ≡ and_then (named_by path s) (λ path. find_from path rest)
find_separate_other path s rest k h =
    find_passed path _ (text_of s ∷ rest) (option-IsPassed s k)
    ∙ find_passed path _ rest h
    ∙ unnamed path s (λ path. find_from path rest) k

-- A setting is read for the file that it names.
find_setting :
    (path : Option Bytes) (form : Bool) (s : Setting) (rest : List Bytes)
    → IsReadable (form, s)
    → find_from path (render ((form, s) ∷ []) ++ rest)
      ≡ and_then (named_by path s) (λ path. find_from path rest)
find_setting path true (config_is p) rest h = find_joined path p rest h ∙ find_named path p rest
find_setting path false (config_is p) rest h = find_separate path p rest h ∙ find_named path p rest
find_setting path true (host_is host) rest h = find_joined_other path (host_is host) rest refl
find_setting path false (host_is host) rest h = find_separate_other path (host_is host) rest refl h
find_setting path true (port_is n) rest h = find_joined_other path (port_is n) rest refl
find_setting path false (port_is n) rest h = find_separate_other path (port_is n) rest refl h
find_setting path true (sub_reactors_are n) rest h =
    find_joined_other path (sub_reactors_are n) rest refl
find_setting path false (sub_reactors_are n) rest h =
    find_separate_other path (sub_reactors_are n) rest refl h
find_setting path true (poller_is b) rest h = find_joined_other path (poller_is b) rest refl
find_setting path false (poller_is b) rest h = find_separate_other path (poller_is b) rest refl h
find_setting path true (log_level_is l) rest h = find_joined_other path (log_level_is l) rest refl
find_setting path false (log_level_is l) rest h =
    find_separate_other path (log_level_is l) rest refl h

find_from-render :
    (path : Option Bytes) (ss : List (Bool × Setting))
    → AllReadable ss
    → find_from path (render ss) ≡ named path ss
find_from-render path [] h = unfold find_from in unfold find_loop in refl
find_from-render path ((true, s) ∷ ss) (h, hs) =
    find_setting path true s (render ss) h
    ∙ then_cong (named_by path s) _ _ (λ p. find_from-render p ss hs)
find_from-render path ((false, s) ∷ ss) (h, hs) =
    find_setting path false s (render ss) h
    ∙ then_cong (named_by path s) _ _ (λ p. find_from-render p ss hs)

pub find_config_path-render :
    (ss : List (Bool × Setting)) → AllReadable ss → find_config_path (render ss) ≡ named none ss
unfolding find_config_path find_from
find_config_path-render ss h = find_from-render none ss h
