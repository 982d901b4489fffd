-- ===== src/Storage/Flag/Laws.antt =====
-- sim/flag.hpp, sim/flag.cpp: the first request of a cycle wins, and the process follows the flag.
use mgsim.Base.{ℕ, ◌≡◌, refl, Bool, true, false, if◌then◌else◌, arith, List, [], ◌∷◌}
use mgsim.Storage.{committing, register_update, notify, unnotify, deactivate}
use mgsim.Storage.Wake.{IsAwake, register_update-IsAwake, register_update_once}
use mgsim.Storage.Flag.{Flag, note, set, clear, update}

abbrev pub IsSensitive : Flag → Type 0
IsSensitive f = IsAwake f.base f.is_set

-- The requests of a cycle, `true` to set and `false` to clear, and their answers.
request : Bool → Flag → Bool × Flag
request true f = set (committing true) f
request false f = clear (committing true) f

pub request_all : List Bool → Flag → List Bool × Flag
request_all [] f = ([], f)
request_all (v ∷ vs) f =
    let (ok, f1) = request v f in let (oks, f2) = request_all vs f1 in (ok ∷ oks, f2)

-- One cycle: `Update` runs only if a request was granted or the constructor asked for it.
pub cycle : ℕ → List Bool → Flag → List Bool × Flag
cycle number vs f =
    let (oks, f1) = request_all vs f in
    (oks, if f1.base.activated then deactivated (update number f1) else f1)
  where
    deactivated : Flag → Flag
    deactivated g = record g { base = deactivate g.base }

abbrev pub refused : List Bool → List Bool
refused [] = []
refused (v ∷ vs) = false ∷ refused vs

-- The first is granted, the others are not.
abbrev pub first_only : List Bool → List Bool
first_only [] = []
first_only (v ∷ vs) = true ∷ refused vs

abbrev pub first_or : Bool → List Bool → Bool
first_or d [] = d
first_or d (v ∷ vs) = v

-- Between cycles nothing is noted.
pub record IsIdle (f : Flag) : Type 0 where
  pub not_updated : f.updated ≡ false
  pub not_activated : f.base.activated ≡ false

request-refused : (v : Bool) (f : Flag) → f.updated ≡ true → request v f ≡ (false, f)
unfolding request set clear note
request-refused true f h = ground arith
request-refused false f h = ground arith

request_all-refused :
    (vs : List Bool) (f : Flag) → f.updated ≡ true → request_all vs f ≡ (refused vs, f)
unfolding request_all
request_all-refused [] f h = refl
request_all-refused (v ∷ vs) f h = ground (arith, request-refused v f, request_all-refused vs f)

noted : Bool → Flag → Flag
noted v f = record f { new = v; updated = true; base = register_update f.base }

request-noted : (v : Bool) (f : Flag) → f.updated ≡ false → request v f ≡ (true, noted v f)
unfolding request set clear note noted
request-noted true f h = ground arith
request-noted false f h = ground arith

request_all-noted :
    (v : Bool) (vs : List Bool) (f : Flag)
    → f.updated ≡ false
    → request_all (v ∷ vs) f ≡ (true ∷ refused vs, noted v f)
unfolding request_all noted
request_all-noted v vs f h = ground (arith, request-noted v f, request_all-refused vs (noted v f))

update-IsSensitive_flag : (number : ℕ) (f : Flag) → IsSensitive f → IsSensitive (update number f)
unfolding update notify unnotify
update-IsSensitive_flag number f s = ground arith

-- Of a flag on which nothing is noted, with its process active exactly while it is set: in the
-- commit phase a cycle grants its first request and refuses the others. The flag then has
-- the value of the granted request, or keeps its value if there is none, and its process stays
-- active exactly while the flag is set.
pub flag_cycle_lem :
    (number : ℕ) (vs : List Bool) (f : Flag)
    → IsIdle f
    → IsSensitive f
    → let (oks, f') = cycle number vs f in
      (oks ≡ first_only vs) × (f'.is_set ≡ first_or f.is_set vs) × IsIdle f' × IsSensitive f'
unfolding cycle request_all update deactivate noted
flag_cycle_lem number [] f i s = ground arith
flag_cycle_lem number (v ∷ vs) f i s = ground (
  arith,
  request_all-noted v vs f,
  register_update-IsAwake f.base f.is_set s,
  register_update_once f.base,
  update-IsSensitive_flag number (noted v f),
)
