-- ===== src/Sys/Calls.antt =====
-- The calls that the modelled programs make of the kernel, the C library and liburing, with the
-- arguments that the theorems look at. A text argument of `printf` and its kin is the format.
use linux_system_programming.Prelude.{List, String, ℕ}
use linux_system_programming.Prelude.Int.{ℤ}

pub data Call : Type 0 where
  printf : String → Call
  printf_num : String → ℤ → Call
  printf_text : String → List ℕ → Call
  eprintf : String → Call
  eprintf_num : String → ℤ → Call
  eprintf_job : ℤ → String → List ℕ → Call
  perror : String → Call
  fflush : Call
  openlog : String → Call
  closelog : Call
  syslog : String → Call
  fgets : ℕ → Call
  scanf : Call
  getchar : Call
  malloc : ℕ → Call
  realloc : ℤ → ℕ → Call
  free : ℤ → Call
  free_text : List ℕ → Call
  malloc_trim : Call
  memset : ℤ → ℕ → ℕ → Call
  memcpy : ℤ → ℤ → ℕ → Call
  open_path : List ℕ → ℕ → Call
  open_name : String → ℕ → Call
  close : ℤ → Call
  fstat : ℤ → Call
  ftruncate : ℤ → ℕ → Call
  lseek : ℤ → ℕ → ℕ → Call
  sysconf : ℕ → Call
  posix_memalign : ℕ → ℤ → Call
  read : ℤ → ℕ → Call
  write : ℤ → List ℕ → ℕ → Call
  write_memory : ℤ → ℤ → ℕ → Call
  copy_file_range : ℤ → ℤ → ℤ → Call
  splice : ℤ → ℤ → ℤ → Call
  pipe : Call
  dup : ℤ → Call
  dup2 : ℤ → ℤ → Call
  mmap : ℕ → ℤ → Call
  mremap : ℤ → ℕ → ℕ → Call
  munmap : ℤ → ℕ → Call
  fork : Call
  waitpid : ℕ → Call
  waitpid_of : ℤ → ℕ → Call
  execlp : List ℕ → Call
  getopt : Call
  time : Call
  msgget : ℤ → Call
  msgsnd : ℤ → ℤ → Call
  msgrcv : ℤ → ℤ → Call
  execvp : List (List ℕ) → Call
  kill : ℤ → ℕ → Call
  signal : ℕ → ℕ → Call
  getpid : Call
  getpgrp : Call
  setpgid : ℤ → ℤ → Call
  setsid : Call
  isatty : ℤ → Call
  tcgetpgrp : ℤ → Call
  tcsetpgrp : ℤ → ℤ → Call
  tcgetattr : ℤ → Call
  tcsetattr : ℤ → ℕ → Call
  umask : ℕ → Call
  chdir : String → Call
  sleep : ℕ → Call
  socket : ℕ → ℕ → ℕ → Call
  setsockopt : ℤ → Call
  bind : ℤ → Call
  listen : ℤ → ℕ → Call
  accept : ℤ → Call
  connect : ℤ → List ℕ → Call
  recv : ℤ → ℕ → Call
  send : ℤ → List ℕ → Call
  recvmsg : ℤ → ℕ → Call
  sendmsg_fd : ℤ → ℤ → Call
  unlink : String → Call
  fopen : String → Call
  fscanf : ℤ → Call
  fclose : ℤ → Call
  snprintf : ℕ → String → ℕ → ℕ → ℕ → Call
  getaddrinfo : List ℕ → Call
  freeaddrinfo : ℤ → Call
  io_uring_queue_init : ℕ → Call
  io_uring_queue_exit : Call
  socketpair : Call
  sigaction : ℕ → Call
  prctl : ℕ → ℕ → Call
  -- the operation and its flags; the filter's instructions are code, jt, jf and k
  seccomp : ℕ → ℕ → List (ℕ × ℕ × ℕ × ℕ) → Call
  mkdir : List ℕ → ℕ → Call
  open_proc_mem : ℕ → Call
  pread : ℤ → ℕ → ℕ → Call
  notif_id_valid : ℤ → ℕ → Call
  notif_recv : ℤ → Call
  -- the identifier, the flags, the value and the error of a response
  notif_send : ℤ → ℕ → ℕ → ℕ → ℤ → Call
  calloc : ℕ → Call
  getpass : Call
  ttyname : Call
  login : Call
  logout : Call
  endutent : Call
  pam_start : String → List ℕ → Call
  pam_authenticate : Call
  pam_acct_mgmt : Call
  pam_open_session : Call
  pam_close_session : Call
  pam_setcred : ℕ → Call
  pam_get_item : ℕ → Call
  pam_set_item : ℕ → List ℕ → Call
  pam_getenvlist : Call
  pam_end : ℤ → Call
  getpwnam : List ℕ → Call
  initgroups : List ℕ → ℕ → Call
  setgid : ℕ → Call
  setuid : ℕ → Call
  setenv : String → List ℕ → Call
  putenv : List ℕ → Call
  getenv : String → Call
  chdir_path : List ℕ → Call
  execlp_name : String → Call
  aio_read : ℕ → ℤ → Call
  aio_cancel : ℕ → ℤ → Call
  aio_error : ℕ → Call
  aio_return : ℕ → Call
  fcntl : ℤ → ℕ → ℕ → Call
  epoll_create1 : Call
  epoll_ctl : ℤ → ℕ → ℤ → Call
  epoll_wait : ℤ → ℕ → Call
  forkpty : Call
  pidfd_open : ℤ → Call
  inotify_init1 : Call
  inotify_add_watch : ℤ → List ℕ → ℕ → Call
  poll : ℤ → ℤ → Call
  posix_openpt : ℕ → Call
  grantpt : ℤ → Call
  unlockpt : ℤ → Call
  ptsname : ℤ → Call
