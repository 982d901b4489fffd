-- ===== src/Storage/Flag/Tests.antt =====
-- Runs of the constructor of sim/flag.cpp.
use mgsim.Base.{◌≡◌, refl, true, false, [], ◌∷◌}
use mgsim.Storage.{activate_storage, register_update}
use mgsim.Storage.Flag.{create, update}

-- A flag that starts out set asks for an update, and is set behind it.
create_run :
    (create true (record { activated = false; calls = [] })).base.calls ≡ activate_storage ∷ []
unfolding create register_update
create_run = refl

create-update_run :
    (update 1 (create true (record { activated = false; calls = [] }))).is_set ≡ true
unfolding create update
create-update_run = refl
