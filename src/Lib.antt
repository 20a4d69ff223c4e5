-- ===== src/Lib.antt =====
-- The kernel of the ECE 391 operating system: a read-only file system, processes in three terminals,
-- system calls on descriptors, a round-robin scheduler, and drivers for the screen, the keyboard, the
-- real-time clock, the interrupt controllers and the page tables.
--
-- Files and code (paths from the repository's root):
--   Base, Base/*            shared names, Boolean tests, lists, tables as functions, integers
--   Text, Text/*            strings and numbers of student-distrib/lib.c (strlen, strncmp, itoa, ...)
--   FileSystem, FileSystem/*  student-distrib/file_system.c: boot block, read_data, lookups, commands
--   Files, Files/*          the read, open and close of regular files and directories in the same file,
--                           and the reading loops of syscalls/ece391cat.c and syscalls/ece391ls.c
--   Paging, Paging/*        student-distrib/paging.c; Paging/Walk is the processor's translation
--   Ports, Pic, Pic/*       port output, and student-distrib/i8259.c
--   State                   the structs of student-distrib/process.h and keyboard.h, and the globals
--   Console, Console/*      screen output of student-distrib/lib.c and the terminals' backup pages;
--                           Console/Printf is printf and printf_direct
--   Keyboard, Keyboard/*    student-distrib/keyboard.c
--   Rtc, Rtc/*              student-distrib/rtc.c
--   Process, Process/*      student-distrib/process.c
--   SysCall, SysCall/*      student-distrib/system_call.c; SysCall/Programs has execute and halt
--   Scheduling, Scheduling/*  student-distrib/scheduling.c
--   Idt, Idt/*              student-distrib/idt.c, and the gate's layout in student-distrib/x86_desc.h
--   Exceptions, Exceptions/*  student-distrib/exceptions.c
--   System, System/*        the kernel as a whole: the invariant of its state, what each call and interrupt does
--                           to it, and runs of them
--   Boot, Boot/*            student-distrib/kernel.c, and the structs of student-distrib/multiboot.h
--   User, User/*            syscalls/ece391shell.c, ece391cat.c, ece391ls.c and ece391hello.c, over an interface of the
--                           system calls, with the functions they use of syscalls/ece391support.c
--   User/Grep, User/Grep/*  syscalls/ece391grep.c over the same interface: User/Grep/Lines says what a line and an
--                           occurrence are, and User/Grep/Disk what is asked of the system
--   User/Counter, User/Counter/*  syscalls/ece391counter.c and ece391testprint.c
--   User/Pingpong, User/Pingpong/*  syscalls/ece391pingpong.c, its endless loop as a number of rounds
--   User/Calls, User/Errors, User/Errors/*  syscalls/ece391syserr.c, over calls that may fault or wait;
--                           User/Errors/Strict is what it asks of the system, which System/Strict shows of the
--                           kernel's calls, put together in System/Calls with the dispatcher of
--                           student-distrib/system_call_linkage.S
--   Tests/*                 concrete inputs
--
-- How the parts interact: system calls look a descriptor up in the array that `file_array` points to
-- (the number of a process control block here, `none` for NULL) and go on to the operations of its
-- table; the keyboard's interrupt fills the displayed terminal's buffer for `terminal_read`, which
-- waits on a flag; the timer's interrupt stores the frame pointer of the running program and goes on
-- with the next terminal's. `entry` starts the first shell; from there on the state changes by
-- interrupts and by the calls of the program that runs (System/Runs). A handler takes the state and
-- gives the new state with its result; words sent to ports are collected in a list.
--
-- Numbers: unsigned machine words are natural numbers with the wrap-around written out where it can
-- happen; signed results are integers. A division by zero, a read through NULL and a jump to a program
-- are results of their own (`Outcome`, `Transfer`). What an uninitialised local holds is an argument.
--
-- Waiting and fuel: `terminal_read` takes the list of scan codes that arrive, `rtc_read` the number of
-- clock interrupts; with too few of them the result is `blocked`. `cat_loop` and `ls_loop` take fuel;
-- for `cat_loop` more fuel than bytes left is shown to be enough. The user programs' loops take a
-- number of rounds, and more rounds than lines, pieces, names or characters are shown to be enough. All other loops are
-- structural.
--
-- Not modelled: assembly (start-up, saving and restoring registers, TLB and control registers, memset,
-- memmove), the descriptors of the local table and the task segment, the interactive test suite
-- student-distrib/tests.c, which RUN_TESTS 0 leaves out of the kernel, the user program sigtest (signals, which
-- the kernel does not have), ece391emulate.c, which runs programs on Linux, and the fish demonstration,
-- which drives the assembly of another assignment. The frame pointers that the
-- assembly saves and restores are numbers. That the disk lies in a page that is present is tested where the boot
-- block is first read; later reads of it are not translated. What a write past the end of `params` in `_execute`
-- does is not modelled: it ends the call as a fault does. Runs have the calls of a program of the scheduled terminal
-- only; when the timer could not start a shell in it, no program's calls are part of a run until the
-- next interrupt of the timer. Inside a call, interrupts come only at the waits that the code
-- has, since the gates of system calls disable them; in runs, anything may come during these waits.
pub mod Base
pub mod Text
pub mod FileSystem
pub mod Paging
pub mod Ports
pub mod Pic
pub mod State
pub mod Console
pub mod Boot
pub mod User
pub mod Idt
pub mod Exceptions
pub mod Keyboard
pub mod Files
pub mod SysCall
pub mod Scheduling
pub mod System
pub mod Tests
pub mod Rtc
pub mod Process
