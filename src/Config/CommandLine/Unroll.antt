-- ===== src/Config/CommandLine/Unroll.antt =====
-- The loops of src/config/command_line.cpp and their fuel.
use tinykvcache.Prelude.{
  ℕ, zero, suc, ◌≤◌, ◌≡◌, refl, Bool, true, false, List, [], ◌∷◌, Option, none, some, arith, length,
  if◌then◌else◌,
}
use tinykvcache.Prelude.Text.{codes}
use tinykvcache.Core.FrameCodec.{Bytes}
use tinykvcache.Config.{AppConfig, Outcome, ConfigError, unknown_option, valid, invalid, and_then}
use tinykvcache.Config.CommandLine.{
  require_next_value, matches_option, inline_or_mismatch, read_option_value, path_once,
  find_argument, find_loop, with_value, override_host, override_port, override_poller,
  override_sub_reactors, override_log_level, apply_argument, apply_loop,
  apply_command_line_overrides,
}

-- A round leaves no more arguments than are behind its own.
IsShorter : {A : Type 0} → ℕ → Outcome (A × List Bytes) → Type 0
IsShorter n (valid (a, rest)) = length rest ≤ n
IsShorter n (invalid e) = Unit {0}

if-IsShorter :
    {A : Type 0} (n : ℕ) (t : Bool) (x y : Outcome (A × List Bytes))
    → IsShorter n x
    → IsShorter n y
    → IsShorter n (if t then x else y)
if-IsShorter n true x y a b = a
if-IsShorter n false x y a b = b

valid-IsShorter :
    {A : Type 0} (n : ℕ) (a : A) (rest : List Bytes)
    → length rest ≤ n
    → IsShorter n (valid (a, rest))
unfolding IsShorter
valid-IsShorter n a rest h = h

invalid-IsShorter : (A : Type 0) (n : ℕ) (e : ConfigError) → IsShorter {A = A} n (invalid e)
unfolding IsShorter
invalid-IsShorter A n e = tt

require-IsShorter : (rest : List Bytes) → IsShorter (length rest) (require_next_value rest)
unfolding require_next_value IsShorter
require-IsShorter [] = tt
require-IsShorter (v ∷ rest) = ground arith

inline-IsShorter :
    (rest : List Bytes) (v : Outcome (Option Bytes))
    → IsShorter (length rest) (and_then v (inline_or_mismatch rest))
unfolding and_then inline_or_mismatch IsShorter
inline-IsShorter rest (valid none) = tt
inline-IsShorter rest (valid (some v)) = omega arith
inline-IsShorter rest (invalid e) = tt

read-IsShorter :
    (argument option : Bytes) (rest : List Bytes)
    → IsShorter (length rest) (read_option_value argument option rest)
unfolding read_option_value
read-IsShorter argument option rest =
    if-IsShorter _ _ _ _ (require-IsShorter rest) (inline-IsShorter rest _)

-- What is done with the value keeps the arguments.
then-IsShorter :
    {A B : Type 0} (n : ℕ) (r : Outcome (A × List Bytes))
    (f : A × List Bytes → Outcome (B × List Bytes))
    → IsShorter n r
    → ((a : A) (rest : List Bytes) → length rest ≤ n → IsShorter n (f (a, rest)))
    → IsShorter n (and_then r f)
unfolding and_then IsShorter
then-IsShorter n (valid (a, rest)) f h k = k a rest h
then-IsShorter n (invalid e) f h k = tt

set-IsShorter :
    (n : ℕ) (rest : List Bytes) (r : Outcome AppConfig)
    → length rest ≤ n
    → IsShorter n (and_then r (λ c. valid (c, rest)))
unfolding and_then IsShorter
set-IsShorter n rest (valid c) h = h
set-IsShorter n rest (invalid e) h = tt

with_value-IsShorter :
    (argument option : Bytes) (rest : List Bytes) (set : Bytes → Outcome AppConfig)
    → IsShorter (length rest) (with_value argument option rest set)
unfolding with_value
with_value-IsShorter argument option rest set =
    then-IsShorter (length rest) (read_option_value argument option rest) _
      (read-IsShorter argument option rest)
      (λ v rest' h. set-IsShorter (length rest) rest' (set v) h)

apply_argument-IsShorter :
    (cores : ℕ) (config : AppConfig) (argument : Bytes) (rest : List Bytes)
    → IsShorter (length rest) (apply_argument cores config argument rest)
unfolding apply_argument
apply_argument-IsShorter cores config argument rest =
    let n = length rest in
    let skip : Bytes × List Bytes → Outcome (AppConfig × List Bytes) = λ r. valid (config, r.1) in
    let w = λ (option : Bytes) (set : Bytes → Outcome AppConfig).
      with_value-IsShorter argument option rest set in
    if-IsShorter n _ _ _
      (then-IsShorter n (require_next_value rest) skip (require-IsShorter rest)
        (λ v r h. valid-IsShorter n config r h))
      (if-IsShorter n _ _ _
        (then-IsShorter n _ skip (read-IsShorter argument _ rest)
          (λ v r h. valid-IsShorter n config r h))
        (if-IsShorter n (matches_option argument (codes "--host")) _ _
          (w (codes "--host") (override_host cores config))
          (if-IsShorter n (matches_option argument (codes "--port")) _ _
            (w (codes "--port") (override_port cores config))
            (if-IsShorter n (matches_option argument (codes "--poller")) _ _
              (w (codes "--poller") (override_poller cores config))
              (if-IsShorter n (matches_option argument (codes "--sub-reactors")) _ _
                (w (codes "--sub-reactors") (override_sub_reactors cores config))
                (if-IsShorter n (matches_option argument (codes "--log-level")) _ _
                  (w (codes "--log-level") (override_log_level cores config))
                  (if-IsShorter n _ _ _ (valid-IsShorter n config rest (omega arith))
                    (invalid-IsShorter AppConfig n unknown_option))))))))

path_once-IsShorter :
    (n : ℕ) (path : Option Bytes) (v : Bytes) (rest : List Bytes)
    → length rest ≤ n
    → IsShorter n (path_once path (v, rest))
unfolding path_once IsShorter
path_once-IsShorter n none v rest h = h
path_once-IsShorter n (some p) v rest h = tt

find_argument-IsShorter :
    (path : Option Bytes) (argument : Bytes) (rest : List Bytes)
    → IsShorter (length rest) (find_argument path argument rest)
unfolding find_argument
find_argument-IsShorter path argument rest =
    let n = length rest in
    if-IsShorter n _ _ _
      (then-IsShorter n _ _ (require-IsShorter rest) (path_once-IsShorter n path))
      (if-IsShorter n _ _ _
        (then-IsShorter n _ _ (read-IsShorter argument _ rest) (path_once-IsShorter n path))
        (valid-IsShorter n path rest (omega arith)))

-- Two continuations that agree on what is short enough.
then_short :
    {A B : Type 0} (n : ℕ) (r : Outcome (A × List Bytes)) (f g : A × List Bytes → Outcome B)
    → IsShorter n r
    → ((a : A) (rest : List Bytes) → length rest ≤ n → f (a, rest) ≡ g (a, rest))
    → and_then r f ≡ and_then r g
unfolding and_then IsShorter
then_short n (valid (a, rest)) f g h k = k a rest h
then_short n (invalid e) f g h k = refl

pub then_cong :
    {A B : Type 0} (r : Outcome A) (f g : A → Outcome B)
    → ((a : A) → f a ≡ g a)
    → and_then r f ≡ and_then r g
unfolding and_then
then_cong (valid a) f g h = h a
then_cong (invalid e) f g h = refl

apply_loop-fuel :
    (f g cores : ℕ) (arguments : List Bytes) (config : AppConfig)
    → length arguments ≤ f
    → length arguments ≤ g
    → apply_loop f cores arguments config ≡ apply_loop g cores arguments config
unfolding apply_loop
apply_loop-fuel zero zero cores [] config h k = refl
apply_loop-fuel zero (suc g) cores [] config h k = refl
apply_loop-fuel (suc f) zero cores [] config h k = refl
apply_loop-fuel (suc f) (suc g) cores [] config h k = refl
apply_loop-fuel zero g cores (a ∷ rest) config h k = absurd (omega arith)
apply_loop-fuel (suc f) zero cores (a ∷ rest) config h k = absurd (omega arith)
apply_loop-fuel (suc f) (suc g) cores (a ∷ rest) config h k =
    then_short (length rest) (apply_argument cores config a rest) _ _
      (apply_argument-IsShorter cores config a rest)
      (λ c rest' short. apply_loop-fuel f g cores rest' c (omega arith) (omega arith))

-- The overrides, a round at a time: the fuel is always enough.
pub apply_lem :
    (cores : ℕ) (argument : Bytes) (rest : List Bytes) (config : AppConfig)
    → apply_command_line_overrides cores (argument ∷ rest) config
      ≡ and_then
          (apply_argument cores config argument rest)
          (λ r. apply_command_line_overrides cores r.1 r.0)
unfolding apply_command_line_overrides apply_loop
apply_lem cores argument rest config =
    then_short (length rest) (apply_argument cores config argument rest) _ _
      (apply_argument-IsShorter cores config argument rest)
      (λ c rest' short.
        apply_loop-fuel (length rest) (length rest') cores rest' c short (omega arith))

find_loop-fuel :
    (f g : ℕ) (path : Option Bytes) (arguments : List Bytes)
    → length arguments ≤ f
    → length arguments ≤ g
    → find_loop f path arguments ≡ find_loop g path arguments
unfolding find_loop
find_loop-fuel zero zero path [] h k = refl
find_loop-fuel zero (suc g) path [] h k = refl
find_loop-fuel (suc f) zero path [] h k = refl
find_loop-fuel (suc f) (suc g) path [] h k = refl
find_loop-fuel zero g path (a ∷ rest) h k = absurd (omega arith)
find_loop-fuel (suc f) zero path (a ∷ rest) h k = absurd (omega arith)
find_loop-fuel (suc f) (suc g) path (a ∷ rest) h k =
    then_short (length rest) (find_argument path a rest) _ _ (find_argument-IsShorter path a rest)
      (λ p rest' short. find_loop-fuel f g p rest' (omega arith) (omega arith))

-- The search from a path that has been found, a round at a time.
unfoldable pub find_from : Option Bytes → List Bytes → Outcome (Option Bytes)
find_from path arguments = find_loop (length arguments) path arguments

pub find_from_lem :
    (path : Option Bytes) (argument : Bytes) (rest : List Bytes)
    → find_from path (argument ∷ rest)
      ≡ and_then (find_argument path argument rest) (λ r. find_from r.0 r.1)
unfolding find_from find_loop
find_from_lem path argument rest =
    then_short (length rest) (find_argument path argument rest) _ _
      (find_argument-IsShorter path argument rest)
      (λ p rest' short. find_loop-fuel (length rest) (length rest') p rest' short (omega arith))
