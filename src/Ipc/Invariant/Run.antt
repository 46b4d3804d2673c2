-- ===== src/Ipc/Invariant/Run.antt =====
-- The objects are sound after any system call of src/ipc.c, whichever process makes it, and after
-- whatever a process does when it goes on behind a wait.
use yalnix.Base.{ℕ, ◌^◌, ◌<◌, ◌≢◌, Bool, ℤ}
use yalnix.Hardware.{Hardware}
use yalnix.State.{Kernel}
use yalnix.Ipc.Pipe.{sys_pipe_init, pipe_read_loop, sys_pipe_read, sys_pipe_write}
use yalnix.Ipc.Lock.{sys_lock_init, ipc_process_exit, sys_release, sys_acquire, acquire_resume}
use yalnix.Ipc.Cvar.{
  sys_cvar_init, sys_cvar_signal, sys_cvar_broadcast, sys_cvar_wait, cvar_wait_resume, sys_reclaim,
}
use yalnix.Ipc.Invariant.{AllSound}
use yalnix.Ipc.Invariant.Steps.{
  sys_release-AllSound, lock_acquire-AllSound, acquire_resume-AllSound,
}
use yalnix.Ipc.Invariant.Calls

pub data IpcCall : Type 0 where
  pipe_init : (malloc_ok : Bool) (idp : ℕ) → IpcCall
  pipe_read : (id : ℤ) (buf : ℕ) (len : ℤ) → IpcCall
  pipe_write : (malloc_ok : Bool) (id : ℤ) (buf : ℕ) (len : ℤ) → IpcCall
  lock_init cvar_init : (idp : ℕ) → IpcCall
  acquire release signal broadcast reclaim : (id : ℤ) → IpcCall
  cvar_wait : (cvar_id lock_id : ℤ) → IpcCall
  exit : (proc : ℕ) → IpcCall
  go_on_read : (id buf len : ℕ) → IpcCall
  go_on_acquire : (id : ℕ) → IpcCall
  go_on_cvar_wait : (cvar_id lock_id : ℕ) → IpcCall

module _ ⦃hw : Hardware⦄ where
  pub after : IpcCall → Kernel → Kernel
  after (pipe_init ok idp) k = (sys_pipe_init ok idp k).1
  after (pipe_read id buf n) k = (sys_pipe_read id buf n k).1
  after (pipe_write ok id buf n) k = (sys_pipe_write ok id buf n k).1
  after (lock_init idp) k = (sys_lock_init idp k).1
  after (cvar_init idp) k = (sys_cvar_init idp k).1
  after (acquire id) k = (sys_acquire id k).1
  after (release id) k = (sys_release id k).1
  after (signal id) k = (sys_cvar_signal id k).1
  after (broadcast id) k = (sys_cvar_broadcast id k).1
  after (reclaim id) k = (sys_reclaim id k).1
  after (cvar_wait c l) k = (sys_cvar_wait c l k).1
  after (exit p) k = ipc_process_exit p k
  after (go_on_read id buf n) k = (pipe_read_loop id buf n k).1
  after (go_on_acquire id) k = (acquire_resume id k).1
  after (go_on_cvar_wait c l) k = (cvar_wait_resume c l k).1

  -- No write takes a pipe's length above 2^30.
  abbrev pub WithinPipe : IpcCall → Kernel → Type 0
  WithinPipe (pipe_write ok id buf n) k = Calls.Fits k id n
  WithinPipe _ k = Unit {0}

  -- Whatever call of src/ipc.c a process makes, or goes on with behind a wait, the objects stay sound:
  -- a pipe's bytes fit its capacity and it has a reader waiting only while it is empty, and a lock has a
  -- waiter only while it has an owner. Writes are taken to keep a pipe's length within 2^30.
  pub after-AllSound :
      (c : IpcCall) (k : Kernel)
      → (0 < hw.pipe_buffer_len) × (hw.pipe_buffer_len < 2 ^ 31)
      → k.current ≢ 0
      → WithinPipe c k
      → AllSound k.objects
      → AllSound (after c k).objects
  unfolding after sys_acquire ipc_process_exit
  after-AllSound (pipe_init ok idp) k room user w all =
      Calls.sys_pipe_init-AllSound room k all ok idp
  after-AllSound (pipe_read id buf n) k room user w all =
      Calls.sys_pipe_read-AllSound k all id buf n
  after-AllSound (pipe_write ok id buf n) k room user w all =
      Calls.sys_pipe_write-AllSound k all ok id buf n w
  after-AllSound (lock_init idp) k room user w all = Calls.sys_lock_init-AllSound k all idp
  after-AllSound (cvar_init idp) k room user w all = Calls.sys_cvar_init-AllSound k all idp
  after-AllSound (acquire id) k room user w all = lock_acquire-AllSound k all user id
  after-AllSound (release id) k room user w all = sys_release-AllSound k all id
  after-AllSound (signal id) k room user w all = Calls.sys_cvar_signal-AllSound k all id
  after-AllSound (broadcast id) k room user w all = Calls.sys_cvar_broadcast-AllSound k all id
  after-AllSound (reclaim id) k room user w all = Calls.sys_reclaim-AllSound k all id
  after-AllSound (cvar_wait c l) k room user w all = Calls.sys_cvar_wait-AllSound k all user c l
  after-AllSound (exit p) k room user w all = Calls.release_owned-AllSound 128 0 p k all
  after-AllSound (go_on_read id buf n) k room user w all =
      Calls.pipe_read_loop-AllSound k all id buf n
  after-AllSound (go_on_acquire id) k room user w all = acquire_resume-AllSound k all user id
  after-AllSound (go_on_cvar_wait c l) k room user w all =
      Calls.cvar_wait_resume-AllSound k all user c l
