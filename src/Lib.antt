-- ===== src/Lib.antt =====
-- A model of Linux kernel modules and their user programs: the packet capture module under
-- netlink/, the control module under netctrl/, the proc files under proc/, the wireless
-- extension device under mon/, the probes under kprobe/, the works under tasklet_workqueue/, the
-- network examples under nic/, the notifiers under notifierchain/, the threads under kthread/,
-- the timers under timer/, the return probe under funcexectime/, the terminal under tty/, and
-- the messages under usermode_helper/ and multifile/.
--
-- How the parts interact. netlink/netlink.c registers a netfilter hook, hook_func_queue, which
-- copies each packet into a netlink message taken from a pool of buffers, and puts it on a
-- queue; a thread, kcapd, takes the messages from the queue and sends them to the process that
-- registered last. Processes register and leave by netlink messages, which cap_receive takes
-- apart. A second hook, hook_func, sends to every process in the table of users; it is not
-- registered. netlink/user_client.c is a process that registers, receives and leaves.
-- netctrl/app.c turns a command line into one netlink message, and netctrl/netctrl.c prints what
-- it asks for. proc/foobar.c keeps two small arrays behind two proc files, mon/mon.c a number
-- and a name behind private ioctls, kprobe/kprobe.c registers probes, and tasklet_workqueue/
-- queues works for workers and schedules a tasklet. nic/tcp.c, nic/udp.c and nic/garp.c each
-- build packets in a socket buffer and send them through eth0, and nic/nic.c makes a device with
-- hooks. notifierchain/regchain.c puts three notifiers on the chain that buildchain.c keeps, and
-- notify.c runs it. kthread/kthread_sema.c has a reader and a writer that meet in a semaphore,
-- kthread/mythread.c one thread; timer/stdtimer.c and timer/hrtimer.c start a timer each;
-- funcexectime/funcexectime.c measures the calls of a function of the kernel, and tty/tty.c
-- greets the task that loads it. But for the three files of notifierchain/ these stand alone.
--
-- The files and what they model:
--   Common: shared names, tests, lists, C integers, C strings and little-endian bytes. Outcome
--     is what kernel code does: it returns (done) or faults (oops: a read through NULL or
--     outside an allocation, or BUG_ON).
--   Nlmsg: struct nlmsghdr, the kernel's message functions as parameters (SkbApi, NlmsgApi), and
--     the loop that cap_receive_skb and netctrl_receive_skb share.
--   Capture: netlink/netlink.c. Users has usrtab with usrcnt; Rate has cap_rate_check; Buffers
--     has the free list, cap_buffer_alloc and cap_buffer_free; State has the static variables,
--     app_init and app_exit; Hooks has the two hooks and cap_make_reply; Daemon has kcapd;
--     Receive has cap_receive_msg and cap_receive_skb, with one message in Single and a buffer
--     of them in Messages; Start is about the start and the stop; Session puts the hook, kcapd
--     and the receiving side together as a step relation, and follows the packets to the user
--     program (Delivery, Recipients) and the module to its end (Unload), with one session of the
--     user program from the start to the end (Whole); Overlap has calls of the hook and the
--     thread that overlap, also from when the module is loaded (Lifetime). Client is
--     netlink/user_client.c.
--   Netctrl: Kernel is netctrl/netctrl.c with the types of netctrl/netctrl.h; App is
--     netctrl/app.c; Roundtrip puts the two together, and CommandLine follows a command line to
--     the line that is printed.
--   Proc: proc/foobar.c.
--   Mon: mon/mon.c, its private ioctls; Device has the device and its life; Private has the
--     tables of the ioctls and the commands of iwpriv.
--   Kprobe: kprobe/kprobe.c, the registration of its probes; Handlers has what they do when hit.
--   Workqueue: tasklet_workqueue/myworkqueue.c, three works and the workers that do them;
--     Tasklet is tasklet_workqueue/tasklet.c.
--   Nic: Skb has socket buffers, with the kernel's functions on them as a parameter (SkbApi) and
--     what is documented of these (Documented); Packet has what nic/tcp.c and nic/udp.c share;
--     Tcp, Udp and Garp are nic/tcp.c, nic/udp.c and nic/garp.c; Parse takes packets apart, from
--     the formats and not from the code; Device is nic/nic.c.
--   Notifier: the three files of notifierchain/.
--   Kthread: kthread/kthread_sema.c; Mythread is kthread/mythread.c.
--   Timer: Standard is about timer/stdtimer.c, HighRes about timer/hrtimer.c.
--   FuncExecTime: funcexectime/funcexectime.c.
--   Tty: tty/tty.c. UsermodeHelper: usermode_helper/usermodehelper.c. Multifile: multifile/.
--
-- Each component's state is a record with the fields of its C struct or its static variables,
-- and a function of C that changes it is a function of the same name, on the state and the
-- answers of the calls outside the repository. A goto to a clean-up label is a function for the
-- label. What is printed is left out, except where printing is what a command is for. Names in
-- this library are those of C, in lower case; Module.name stands for a file of this library.
--
-- Parameters: the allocators, netlink_unicast, the nlmsg functions, kthread_run, jiffies, HZ,
-- sockets and getopt_long are arguments. What is relied on of them is a hypothesis: Progress
-- says that nlmsg_next takes some of the length that remained, AlwaysMakes that memory can be
-- had, Netctrl.Kernel.Receive.Documented gives the two sizes of the kernel's headers.
-- Nic.Skb.Documented says where skb_put, skb_push, skb_reserve and eth_header put their bytes,
-- and leaves the memory that a buffer grows into unknown; IsRwSemaphore who holds a semaphore;
-- IsTimerApi when a timer is pending; IsNotifierApi who is on a chain and that all on it are
-- called; IsTaskletApi when a tasklet is scheduled; IsWextApi how iwpriv and the kernel look up
-- the tables of mon.c; IsWire and IsSkbApi of Capture.Client.Wire how long a message is and that
-- it is received as it was sent; IsGetoptLong how getopt_long takes the options of app.c apart.
-- copy_from_user of Proc puts zeros in the place of the bytes that it cannot copy. Each is a
-- record that the theorems take as an argument, and the tests have one that fulfils it.
--
-- Numbers are natural numbers. Where C wraps, the wrap-around is written out: the packet counter
-- is a 32-bit pattern, jiffies a 64-bit one, the length of a message 32-bit; an int that is only
-- compared for equality is its bit pattern. Counters that the code lowers only where they are
-- above 0 are plain numbers. ℤ has the error codes and remaining lengths, which can be negative.
--
-- Fuel: the message loop has one more than the length of the buffer, as each message takes some
-- of that length. The receiving loop of user_client.c has any number of rounds. The thread kcapd
-- runs for as long as the kernel lets it, so its model takes a list with an answer for each
-- round.
--
-- Concurrency: Capture.Session takes the calls of the hook, the rounds of kcapd and the calls of
-- cap_receive as its steps, in any order. The mutex makes the last of them one step; the hook
-- and kcapd meet only in the queue and the pool, whose updates are under spin locks.
-- Capture.Overlap has calls of the hook that overlap with one another, on any number of
-- processors, and with the thread, with a step from one lock, or one look at the port, to the
-- next; there the receiving side only sets the port. Kthread and Timer have a step for each call
-- of a thread or a callback that others can come between, and the exit of the module as further
-- steps; code that runs after its module is gone is a fault.
--
-- Not modelled: what the modules print for tracing (with the reads that only feed a trace, such
-- as the first 12 bytes of a packet), waiting and freezing of threads, and functions that
-- nothing calls or that only print: recv_from_kernel_ntlkmsg of netlink/user_client.c,
-- proc_read_jiffies of proc/foobar.c, and the interrupt handlers of mon/mon.c and nic/nic.c,
-- which only answer IRQ_NONE.
pub mod Capture
pub mod Common
pub mod FuncExecTime
pub mod Kprobe
pub mod Kthread
pub mod Mon
pub mod Multifile
pub mod Netctrl
pub mod Nic
pub mod Nlmsg
pub mod Notifier
pub mod Proc
pub mod Timer
pub mod Tty
pub mod UsermodeHelper
pub mod Workqueue
