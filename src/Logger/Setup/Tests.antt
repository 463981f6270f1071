-- ===== src/Logger/Setup/Tests.antt =====
-- An asynchronous logger whose thread cannot be bound to a CPU, and one that is made:
-- base/sources/logger/logger_impl.cpp.
use libcppx.Base.{some, Bool, true, false, List, [], ◌∷◌, ◌≡◌, refl}
use libcppx.ErrorCode.{ErrorCode, set_last_error}
use libcppx.Logger.Setup.{
  Resources, Config, Answers, Call, init, init_async, init_spin_lock, init_thread, stop, exit,
  create,
}
use libcppx.Logger.Setup.Released.{after, is_some, create-releases}

abbrev async_config : Config
async_config = record {
  log_level = 9;
  is_async = true;
  bind_cpu_no = 3;
  log_file_max_size_mb = 16;
  log_total_size_mb = 4096;
  log_format_buffer_size = 4096;
  log_channel_max_mem_mb = 128;
  throws = false;
}

abbrev answers : Bool → Answers
answers bind_cpu = record {
  channel = true;
  spin_lock = true;
  thread_manager = true;
  thread = true;
  bind = true;
  bind_cpu = bind_cpu;
}

abbrev before : Resources
before = record { channels = 2; spin_locks = 5; threads = 7 }

-- The error of BindCpu is the last error of Create.
no_cpu :
    (create true 0 (some async_config) (answers false) ErrorCode.success before).1
    ≡ ErrorCode.system_error
unfolding create init init_async init_spin_lock init_thread exit stop set_last_error
no_cpu = refl

-- While the logger is there, there is one of each more.
held :
    (create true 0 (some async_config) (answers true) ErrorCode.success before).2
    ≡ record { channels = 3; spin_locks = 6; threads = 8 }
unfolding create init init_async init_spin_lock init_thread exit stop
held = refl

abbrev start_stop_start : List Call
start_stop_start = Call.call_start true ∷ Call.call_stop ∷ Call.call_start true ∷ []

create-releases_example :
    let r = create true 0 (some async_config) (answers true) ErrorCode.success before in
    let u = after start_stop_start ErrorCode.success r.0 r.2 in
    (is_some r.0 ≡ true) × (u.channels ≡ 2) × (u.spin_locks ≡ 5) × (u.threads ≡ 7)
create-releases_example =
    create-releases true 0 (some async_config) (answers true) ErrorCode.success ErrorCode.success
      start_stop_start before
