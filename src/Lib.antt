-- ===== src/Lib.antt =====
-- OpenSMTPD: a mail server of several processes. The scheduler process keeps the envelopes of the mail
-- queue and decides when each is tried; the processes talk by messages; the lookup process finds the
-- rule of smtpd.conf by which an envelope is treated; timers run by queues of jobs.
--
-- The files and what they model (paths from the repository's root):
--
-- Base, Base/Lists: shared names, tests on numbers, lemmas on Option, Bool and lists. They model no
-- code.
--
-- Tree: usr.sbin/smtpd/tree.c and tree.h, maps from ids to data. A `struct tree` is a list of pairs in
-- the order of the ids and the counter. Definitions bear the names of the functions; `none` is
-- fatalx(). Tree/Laws and Tree/Order are about lookups, order and the counter, Tree/Iteration about
-- the walks.
--
-- Ramqueue: usr.sbin/smtpd/scheduler_ramqueue.c, the scheduler's queue in memory, on top of Tree. The
-- record `Ram` (Ramqueue/Types) is the file's static variables. Envelopes stand in the tree of their
-- message; the lists link them by their ids, so that one envelope may be linked several times or not at
-- all, as in C. A function from a state to an Option of a state is a C function: `none` is fatalx(),
-- or an operation on a list that does not hold the envelope. Ramqueue/Queue has the lists, the
-- priority tree and the rq_queue and rq_envelope helpers; Ramqueue/Envelope has
-- rq_envelope_schedule(), _remove(), _suspend() and _resume(); Ramqueue/Commit, Flight, Batch, Admin
-- and Listing have the functions of the scheduler backend; Ramqueue/Pending has rq_queue_schedule();
-- Ramqueue/Backoff has the retry times. What time(NULL) gives is an argument. Ramqueue/Links and
-- SortedInsert hold lemmas on the lists; Ramqueue/Placement states where each envelope belongs and its
-- child modules are about the operations that move envelopes.
--
-- Mproc: usr.sbin/smtpd/mproc.c, the contents of the messages between the processes. The functions
-- m_add_*() append to the buffer of a `Mproc`, and m_get_*() take from the front of a list of bytes;
-- `none` is fatal(). The sizes of the header and of a message are those of openbsd-compat/imsg.h.
--
-- Runq: usr.sbin/smtpd/runq.c, jobs under one timer. The callback is an argument, a function on the
-- queue.
--
-- Ruleset: usr.sbin/smtpd/ruleset.c with struct rule of smtpd.h. What a table answers is a parameter.
--
-- Smtp: a client's session, usr.sbin/smtpd/smtp_session.c. A function has its C name and takes and
-- gives the Session; `none` is fatal(), a use of a NULL pointer or a tree that does not hold the id. The
-- record Env has what other code decides. Smtp.Text and Smtp.Address have the C string functions and the
-- tests of addresses of util.c and to.c, Smtp.Parser the parser of rfc5322.c, Smtp.Types the structures.
-- Smtp.Header and Smtp.Content rewrite the lines of a message (smtp_tx_dataline()), Smtp.Session opens,
-- answers and closes, Smtp.Check has smtp_check_*(), Smtp.Options the parameters of MAIL FROM and RCPT TO,
-- Smtp.Transaction smtp_tx_*() and smtp_message_*(), Smtp.Auth AUTH PLAIN and LOGIN, Smtp.Proceed
-- smtp_proceed_*(), Smtp.Command smtp_command(), Smtp.Imsg smtp_session_imsg(), Smtp.Io smtp_io() and
-- filter_session_io(), Smtp.Steps runs of events. Smtp.Lines proves what the lines of a message do, and
-- Smtp.Invariant what every event keeps; Smtp.Invariant.Reachable has the theorems on reachable sessions,
-- Smtp.Invariant.Late the run that they leave out, in which a filter ends a message of a session that is
-- about to quit.
--
-- Dns: usr.sbin/smtpd/unpack_dns.c, the answers of the resolver. A packet is the beginning of a memory of
-- bytes; `outside` is a read behind the memory, `stuck` fuel that ran out. The fields of a structure are
-- `none` where they are not set. Dns has dname_expand() and the unpack_*() of values, Dns.Records those of
-- headers, queries and records and print_dname(); Dns.Reads has lemmas on reads, Dns.Expand the bounds of
-- names with pointers, Dns.Names and Dns.Printing names without, Dns.Outside the reads behind a packet.
--
-- Iobuf: usr.sbin/smtpd/iobuf.c, the input and the output of a connection. The memory of a buffer is a
-- list of its size, and `none` is a write outside of it; `outqlast` says that the pointer to the last
-- buffer is set. What malloc(), read(), writev() and libtls answer are arguments. Iobuf has the input,
-- Iobuf.Queue the output, Iobuf.Bytes parts of lists; Iobuf.Input and Iobuf.Line are about the input,
-- Iobuf.Drain, Filled, Output and Written about the output.
--
-- Bounds: ids, times and counters are natural numbers and do not overflow; integers in messages are
-- taken to fit into their four or eight bytes. Fuel: scheduler_next() gets the current time and two
-- rounds, since step n is at least n seconds after the start; rq_queue_schedule() gets a round for
-- each pending envelope and one, since a round takes one off or ends the loop; a batch gets a round
-- for each place and one; the growth of a message buffer gets a round for each byte and one, since the
-- size doubles; runq_timeout() gets a round for each due job and one; smtp_tx_dataline() gets six rounds,
-- since at most four follow a line;
-- dname_expand() gets (len + 2) * (len + 2) rounds, since a pointer goes back before the labels that
-- were read and labels go on; print_dname() gets two rounds more than there is room, since a round takes some.
--
-- Not modelled: the splay trees' shape, and so tree_root() and tree_poproot() of tree.c (the merge of
-- messages takes them in the order of their ids); memory that runs out; logging and statistics; event
-- loops and sockets; raw copies of C structures in messages; the other processes, tables, parser,
-- cryptography and tools, which are left out. Of the sessions: the listeners of smtp.c, proxy.c,
-- the callbacks of the resolver, the reports, the memory of the session itself, and
-- whether the file of a message is open when a line is written to it.
pub mod Base
pub mod Tree
pub mod Ramqueue
pub mod Mproc
pub mod Runq
pub mod Ruleset
pub mod Smtp
pub mod Dns
pub mod Iobuf
