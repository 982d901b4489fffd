-- ===== src/Storage/Wake.antt =====
-- sim/storage.h: how often a storage has activated the process that is sensitive to it. The process
-- counts its activations, so a storage has to balance its calls.
use mgsim.Base.{ℕ, suc, ◌+◌, ◌≡◌, Bool, true, false, not, List, [], ◌∷◌, if◌then◌else◌, arith}
use mgsim.Storage.{
  Storage, Call, activate_storage, activate_process, deactivate_process, register_update, notify,
  unnotify,
}

-- The calls of `ActivateProcess` and of `Process::Deactivate`.
abbrev pub woken : List Call → ℕ
woken [] = 0
woken (activate_storage ∷ cs) = woken cs
woken (activate_process ∷ cs) = suc (woken cs)
woken (deactivate_process ∷ cs) = woken cs

abbrev pub slept : List Call → ℕ
slept [] = 0
slept (activate_storage ∷ cs) = slept cs
slept (activate_process ∷ cs) = slept cs
slept (deactivate_process ∷ cs) = suc (slept cs)

-- The storage holds one activation of its process if it has something for it, and none otherwise.
abbrev pub IsAwake : Storage → Bool → Type 0
IsAwake s full = woken s.calls ≡ slept s.calls + (if full then 1 else 0)

pub register_update-IsAwake :
    (s : Storage) (full : Bool) → IsAwake s full → IsAwake (register_update s) full
unfolding register_update
register_update-IsAwake s full h = ground arith

pub notify-IsAwake : (s : Storage) → IsAwake s false → IsAwake (notify s) true
unfolding notify
notify-IsAwake s h = omega arith

pub unnotify-IsAwake : (s : Storage) → IsAwake s true → IsAwake (unnotify s) false
unfolding unnotify
unnotify-IsAwake s h = omega arith

-- A storage with an update noted is on its clock's list, once.
abbrev pub requests : List Call → ℕ
requests [] = 0
requests (activate_storage ∷ cs) = suc (requests cs)
requests (activate_process ∷ cs) = requests cs
requests (deactivate_process ∷ cs) = requests cs

pub register_update_once :
    (s : Storage)
    → ((register_update s).activated ≡ true)
      × (requests (register_update s).calls ≡ requests s.calls + (if s.activated then 0 else 1))
unfolding register_update
register_update_once s = ground arith

-- A storage that was empty wakes its process.
pub wake_if :
    (s : Storage) (e : Bool) → IsAwake s (not e) → IsAwake (if e then notify s else s) true
wake_if s true h = notify-IsAwake s h
wake_if s false h = h
