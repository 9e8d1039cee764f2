-- ===== src/Jit/Files.antt =====
-- The files in /proc of linux-device-drivers/04.time/jit.c: which function shows which file.
use linux_kernel_ldd.Prelude.{ℕ, Bool, true, false, Option, none, some, ◌==◌, if◌then◌else◌}
use linux_kernel_ldd.Jit.{JitFiles, jit_busy, jit_sched, jit_queue, jit_schedto, jitimer}

-- `jit_currentime_show`, `jit_fn_show` with its `private` data, `jit_timer_show`, and `jit_tasklet_show`
-- with its own, which chooses the queue.
pub data JitShow : Type 0 where
  currentime_shown : JitShow
  fn_shown : JitFiles → JitShow
  timer_shown : JitShow
  tasklet_shown : Bool → JitShow

-- The tables of operations, each by what its open function makes `seq_read` show.
abbrev pub jit_fn_fops : JitFiles → JitShow
jit_fn_fops data_file = fn_shown data_file

abbrev pub jit_currentime_fops : JitShow
jit_currentime_fops = currentime_shown

abbrev pub jit_timer_fops : JitShow
jit_timer_fops = timer_shown

abbrev pub jit_tasklet_fops : Bool → JitShow
jit_tasklet_fops hi = tasklet_shown hi

-- The table and the data that `jit_init` gives to a name.
pub show_of : ℕ → Option JitShow
show_of name =
    if name == 0
    then some jit_currentime_fops
    else if name == 1
    then some (jit_fn_fops jit_busy)
    else if name == 2
    then some (jit_fn_fops jit_sched)
    else if name == 3
    then some (jit_fn_fops jit_queue)
    else if name == 4
    then some (jit_fn_fops jit_schedto)
    else if name == jitimer
    then some jit_timer_fops
    else if name == 6
    then some (jit_tasklet_fops false)
    else if name == 7
    then some (jit_tasklet_fops true)
    else none
